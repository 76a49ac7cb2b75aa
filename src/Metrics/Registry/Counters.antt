-- ===== src/Metrics/Registry/Counters.antt =====
-- What a scrape shows of an interface after the reports of several collections.
use gcisco_exporter.Base.{
  ℕ, ◌≡◌, refl, ap, ◌∙◌, Bool, true, false, nat_eq, and_true, String, some, List, [], ◌∷◌, ◌++◌,
  map, flat_map, cons_inj, arith, All, subst,
}
use gcisco_exporter.Float.{Float64}
use gcisco_exporter.Config.{Device}
use gcisco_exporter.Provider.Json.{InterfaceData}
use gcisco_exporter.Metrics.{Metric, index, add, Call, accepts, are_accepted, iface_rx_bytes}
use gcisco_exporter.Metrics.Vecs.{fits}
use gcisco_exporter.Metrics.Setters.Interface.{
  set_interface_admin_up, set_interface_mtu, set_interface_oper_up, set_interface_resets,
  set_interface_rx_bytes, set_interface_rx_crc_errors, set_interface_rx_discards,
  set_interface_rx_drops, set_interface_rx_errors, set_interface_rx_frame_errors,
  set_interface_rx_giants, set_interface_rx_runts, set_interface_speed, set_interface_tx_bytes,
  set_interface_tx_discards, set_interface_tx_drops, set_interface_tx_errors,
}
use gcisco_exporter.Metrics.Registry.{series, Series, value_or_zero, Prometheus, replay}
use gcisco_exporter.Scheduler.Collect.Calls.{interface_calls}

-- whether a call fits its vector, and is on the vector `m`
unfoldable place : {F : Type 0} → Metric → Call F → Bool × Bool
unfolding fits index
place m c = (fits c, nat_eq (index c.metric) (index m))

nat_eq_refl : (n : ℕ) → nat_eq n n ≡ true
nat_eq_refl n = ground arith

module _ {F : Type 0} ⦃fl : Float64 F⦄ where
  are_accepted-append :
      (cs ds : List (Call F))
      → are_accepted (cs ++ ds) ≡ true
      → (are_accepted cs ≡ true) × (are_accepted ds ≡ true)
  unfolding are_accepted
  are_accepted-append [] ds h = (refl, h)
  are_accepted-append (c ∷ cs) ds h =
      let (now, later) = and_true (accepts c.op) (are_accepted (cs ++ ds)) h in
      let (front, back) = are_accepted-append cs ds later in (rw (now, front) refl, back)

  not_below : (v : F) → accepts (add v) ≡ true → fl.less v (fl.of_nat 0) ≡ false
  unfolding accepts
  not_below v h = ground (arith, h)

  -- the values onto what the counter holds, from the left
  abbrev pub total : F → List F → F
  total x [] = x
  total x (v ∷ vs) = total (fl.plus x v) vs

module _ {F R : Type 0} ⦃fl : Float64 F⦄ (prom : Prometheus F R) where
  replay-append :
      (cs ds : List (Call F)) (r : R) → replay prom (cs ++ ds) r ≡ replay prom ds (replay prom cs r)
  unfolding replay
  replay-append [] ds r = refl
  replay-append (c ∷ cs) ds r = replay-append cs ds (prom.perform c r)

  elsewhere :
      (m n : Metric) (ls ks : List String)
      → nat_eq (index n) (index m) ≡ false
      → ¬ (◌≡◌ {A = Series} (n, ks) (m, ls))
  elsewhere m n ls ks h p =
      let e = ap (λ (s : Series). nat_eq (index s.0) (index m)) p in
      absurd (ground (arith, e, h, nat_eq_refl (index m)))

  -- calls on other vectors
  replay-others :
      (m : Metric) (ls : List String) (cs : List (Call F)) (r : R)
      → are_accepted cs ≡ true
      → map (place m) cs ≡ map (λ c. (true, false)) cs
      → prom.read (m, ls) (replay prom cs r) ≡ prom.read (m, ls) r
  unfolding replay are_accepted place
  replay-others m ls [] r a e = refl
  replay-others m ls (c ∷ cs) r a e =
      let (first, others) = cons_inj _ _ _ _ e in
      let (now, later) = and_true (accepts c.op) (are_accepted cs) a in
      replay-others m ls cs (prom.perform c r) later others
      ∙ prom.read-other c (m, ls) r (ap (λ (t : Bool × Bool). t.0) first) now
          (elsewhere m c.metric ls c.labels (ap (λ (t : Bool × Bool). t.1) first))

  -- an `Add` between calls on other vectors
  replay-add :
      (pre post : List (Call F)) (c : Call F) (v x : F) (r : R)
      → are_accepted (pre ++ c ∷ post) ≡ true
      → map (place c.metric) pre ≡ map (λ d. (true, false)) pre
      → map (place c.metric) post ≡ map (λ d. (true, false)) post
      → fits c ≡ true
      → c.op ≡ add v
      → prom.read (series c) r ≡ some x
      → prom.read (series c) (replay prom (pre ++ c ∷ post) r) ≡ some (fl.plus x v)
  unfolding replay are_accepted
  replay-add pre post c v x r a before after fit op held =
      let (front, back) = are_accepted-append pre (c ∷ post) a in
      let (now, later) = and_true (accepts c.op) (are_accepted post) back in
      let s = replay prom pre r in
      let same : prom.read (series c) s ≡ some x =
        replay-others c.metric c.labels pre r front before ∙ held in
      ap (prom.read (series c)) (replay-append pre (c ∷ post) r)
      ∙ replay-others c.metric c.labels post (prom.perform c s) later after
      ∙ prom.read-add c v s fit op (not_below v (subst (λ o. accepts o ≡ true) op now))
      ∙ ap (λ o. some (fl.plus (value_or_zero o) v)) same

  module _ (d : Device) where
    abbrev rx : String → Series
    rx name = (iface_rx_bytes, d.name ∷ d.host ∷ name ∷ [])

    report-adds :
        (i : InterfaceData F) (x : F) (r : R)
        → are_accepted (interface_calls d i) ≡ true
        → prom.read (rx i.name) r ≡ some x
        → prom.read (rx i.name) (replay prom (interface_calls d i) r) ≡ some (fl.plus x i.rx_bytes)
    unfolding interface_calls set_interface_admin_up set_interface_oper_up set_interface_rx_bytes
        set_interface_tx_bytes set_interface_rx_errors set_interface_tx_errors
        set_interface_rx_crc_errors set_interface_rx_frame_errors set_interface_rx_runts
        set_interface_rx_giants set_interface_rx_drops set_interface_tx_drops
        set_interface_rx_discards set_interface_tx_discards set_interface_resets set_interface_speed
        set_interface_mtu place fits
    report-adds i x r a held =
        replay-add
          (set_interface_admin_up d.name d.host i.name i.admin_up
            ∷ set_interface_oper_up d.name d.host i.name i.oper_up
            ∷ [])
          _ (set_interface_rx_bytes d.name d.host i.name i.rx_bytes) i.rx_bytes x r a refl refl refl
          refl held

    -- What each collection reports of one interface leaves its counter of received octets at what it held
    -- and all the reported numbers added up, not at the last of them, when no number for a counter is below
    -- zero.
    pub rx_bytes_accumulate :
        (name : String) (reports : List (InterfaceData F)) (x : F) (r : R)
        → All (λ i. (i.name ≡ name) × (are_accepted (interface_calls d i) ≡ true)) reports
        → prom.read (rx name) r ≡ some x
        → prom.read (rx name) (replay prom (flat_map (interface_calls d) reports) r)
          ≡ some (total x (map (λ i. i.rx_bytes) reports))
    unfolding flat_map replay
    rx_bytes_accumulate name [] x r h held = held
    rx_bytes_accumulate name (i ∷ reports) x r h held =
        ap (prom.read (rx name))
          (replay-append (interface_calls d i) (flat_map (interface_calls d) reports) r)
        ∙ rx_bytes_accumulate name reports (fl.plus x i.rx_bytes)
            (replay prom (interface_calls d i) r) h.1
            (subst
              (λ n.
                prom.read (rx n) (replay prom (interface_calls d i) r)
                ≡ some (fl.plus x i.rx_bytes))
              h.0.0 (report-adds i x r h.0.1 (ap (λ n. prom.read (rx n) r) h.0.0 ∙ held)))
