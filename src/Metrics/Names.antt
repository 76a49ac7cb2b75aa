-- ===== src/Metrics/Names.antt =====
-- The registered names tell the vectors apart, and every field of the collector is registered.
use gcisco_exporter.Base.{String, ◌≡◌, refl, ap, ◌∙◌, sym, none, some}
use gcisco_exporter.Metrics.{Metric, device_up}
use gcisco_exporter.Metrics.Vecs.{describe, of_name}

-- The name that a vector is registered under.
unfoldable pub name : Metric → String
unfolding describe
name m = elim (describe m) [ none ↦ "" | some d ↦ d.name ]

-- Every vector of the collector is registered, under a name that no other vector has.
pub of_name-name : (m : Metric) → of_name (name m) ≡ some m
unfolding name of_name
of_name-name device_up = refl
of_name-name _ = refl

some-inj : (m n : Metric) → some m ≡ some n → m ≡ n
some-inj m n e = cc

pub name_inj : (m n : Metric) → name m ≡ name n → m ≡ n
name_inj m n e = some-inj m n (sym (of_name-name m) ∙ ap of_name e ∙ of_name-name n)
