-- ===== src/Scheduler/Steps.antt =====
-- One step of a run, and the parts of a run that did not panic.
use mathlib.Core.Option.{some-injective}
use gcisco_exporter.Base.{◌≡◌, refl, ap, Option, none, some}
use gcisco_exporter.Scheduler.World.{World, M, ◌>>=◌}

module _ {F A B : Type 0} where
  pub >>=-step :
      (m : M F A) (f : A → M F B) (w v : World F) (a : A) → m w ≡ some (a, v) → (m >>= f) w ≡ f a v
  unfolding ◌>>=◌
  >>=-step m f w v a e = rw (e, ◌>>=◌)

  pub >>=-eq-some :
      (m : M F A) (f : A → M F B) (w v : World F) (b : B)
      → (m >>= f) w ≡ some (b, v)
      → (a : A) × (u : World F) × (m w ≡ some (a, u)) × (f a u ≡ some (b, v))
  unfolding ◌>>=◌
  >>=-eq-some m f w v b e = go (m w) refl e
    where
      go :
          (r : Option (A × World F))
          → m w ≡ r
          → elim r [ none ↦ none | some (a, u) ↦ f a u ] ≡ some (b, v)
          → (a : A) × (u : World F) × (m w ≡ some (a, u)) × (f a u ≡ some (b, v))
      go none p q = absurd (cc)
      go (some (a, u)) p q = (a, u, p, q)

module _ {F A : Type 0} where
  -- the result and the world of a run that ended in two ways
  pub ended_inj :
      (a b : A) (v w : World F)
      → ◌≡◌ {A = Option (A × World F)} (some (a, v)) (some (b, w))
      → (a ≡ b) × (v ≡ w)
  ended_inj a b v w e =
      let p : ◌≡◌ {A = A × World F} (a, v) (b, w) = some-injective _ _ e in
      (ap (λ (t : A × World F). t.0) p, ap (λ (t : A × World F). t.1) p)
