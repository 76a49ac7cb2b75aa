-- ===== src/Tests/Registry.antt =====
-- A registry that is a function from series to values, and two reports of an interface.
use gcisco_exporter.Base.{
  ℕ, ◌+◌, ◌≡◌, refl, ap, ◌∙◌, String, Bool, true, false, ◌&&◌, ◌==◌, eq_iff, eq_refl, and_true,
  Option, some, List, [], ◌∷◌, ◌↔◌, inl, inr, Bool-cases, arith, if◌then◌else◌, flat_map,
}
use gcisco_exporter.Float.{whole}
use gcisco_exporter.Metrics.{Op, set, add, iface_rx_bytes}
use gcisco_exporter.Metrics.Names.{name, name_inj}
use gcisco_exporter.Metrics.Registry.{Series, series, value_or_zero, Prometheus, replay}
use gcisco_exporter.Metrics.Registry.Counters.{rx_bytes_accumulate}
use gcisco_exporter.Provider.Json.{InterfaceData}
use gcisco_exporter.Scheduler.Collect.Calls.{interface_calls}
use gcisco_exporter.Tests.Counted.{accepted_whole}
use gcisco_exporter.Tests.Sample.{switch}

same_labels : List String → List String → Bool
same_labels [] [] = true
same_labels (a ∷ as') (b ∷ bs) = a == b && same_labels as' bs
same_labels _ _ = false

same_series : Series → Series → Bool
unfolding same_labels
same_series (m, ls) (n, ks) = name m == name n && same_labels ls ks

same_labels→eq : (ls ks : List String) → same_labels ls ks ≡ true → ls ≡ ks
unfolding same_labels
same_labels→eq [] [] h = refl
same_labels→eq [] (k ∷ ks) h = cc
same_labels→eq (l ∷ ls) [] h = cc
same_labels→eq (l ∷ ls) (k ∷ ks) h = ground (arith, eq_iff l k, same_labels→eq ls ks)

same_labels_refl : (ls : List String) → same_labels ls ls ≡ true
unfolding same_labels
same_labels_refl [] = refl
same_labels_refl (l ∷ ls) = ground (arith, eq_iff l l, same_labels_refl ls)

same_series_refl : (s : Series) → same_series s s ≡ true
unfolding same_series
same_series_refl (m, ls) = rw (eq_refl, same_labels_refl)

same_series→eq : (s t : Series) → same_series s t ≡ true → s ≡ t
unfolding same_series
same_series→eq (m, ls) (n, ks) h =
    let (e, l) = and_true (name m == name n) (same_labels ls ks) h in
    cc (name_inj m n ((eq_iff (name m) (name n)).0 e), same_labels→eq ls ks l)

same_series_iff : (s t : Series) → (same_series s t ≡ true) ↔ (s ≡ t)
same_series_iff s t = (same_series→eq s t, λ e. rw e (same_series_refl t))

not_same : (s t : Series) → same_series s t ≡ false → ¬ (s ≡ t)
not_same s t e p = cc (e, (same_series_iff s t).1 p)

differs : (s t : Series) → ¬ (s ≡ t) → same_series s t ≡ false
differs s t h = elim (Bool-cases (same_series s t)) [
  | inl e ↦ absurd (h ((same_series_iff s t).0 e))
  | inr e ↦ e
]

abbrev Table : Type 0
Table = Series → Option ℕ

abbrev put : Series → Option ℕ → Table → Table
put s v r = λ t. if same_series s t then v else r t

abbrev next : Op ℕ → Option ℕ → Option ℕ
next (set v) o = some v
next (add v) o = some (value_or_zero o + v)

abbrev table : Prometheus ℕ Table
table = record {
  perform = λ c r. put (series c) (next c.op (r (series c))) r;
  read = λ s r. r s;
  read-add = λ c v r fit op above.
      ap (λ b. if b then next c.op (r (series c)) else r (series c)) (same_series_refl (series c))
      ∙ ap (λ op. next op (r (series c))) op;
  read-other = λ c s r fit accepted h.
      ap (λ b. if b then next c.op (r (series c)) else r s) (differs (series c) s h);
}

abbrev received : ℕ → InterfaceData ℕ
received n = record {
  name = "Gi1";
  admin_up = true;
  oper_up = true;
  rx_bytes = n;
  tx_bytes = 0;
  rx_errors = 0;
  tx_errors = 0;
  rx_crc_errors = 0;
  rx_frame = 0;
  rx_runts = 0;
  rx_giants = 0;
  rx_drops = 0;
  tx_drops = 0;
  rx_discards = 0;
  tx_discards = 0;
  resets = 0;
  flaps = 0;
  speed = 0;
  mtu = 1500;
}

rx_bytes_accumulate_example :
    table.read
      (iface_rx_bytes, "core1" ∷ "10.0.0.1" ∷ "Gi1" ∷ [])
      (replay table
        (flat_map (interface_calls switch) (received 150 ∷ received 160 ∷ []))
        (λ s. some 100))
    ≡ some 410
rx_bytes_accumulate_example =
    rx_bytes_accumulate table switch "Gi1" (received 150 ∷ received 160 ∷ []) 100 (λ s. some 100)
      ((refl, accepted_whole _), ((refl, accepted_whole _), tt)) refl
