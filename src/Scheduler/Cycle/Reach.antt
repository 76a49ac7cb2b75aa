-- ===== src/Scheduler/Cycle/Reach.antt =====
-- A cycle touches nothing but what belongs to the configured devices.
use gcisco_exporter.Base.{
  ◌+◌, ℕ, ◌≡◌, ◌≢◌, refl, ◌∙◌, sym, ap, subst, String, Bool, true, false, Option, none, some, List,
  [], ◌∷◌, ◌++◌, append-nil, append_assoc, All, All-append, ◌⊎◌, inl, inr, Map, insert,
  if◌then◌else◌, ◌/◌,
}
use gcisco_exporter.Float.{Float64}
use gcisco_exporter.Error.{Error}
use gcisco_exporter.Config.{MetricSelection, Device, Config}
use gcisco_exporter.Metrics.{Call}
use gcisco_exporter.Metrics.Setters.Device.{
  set_collection_duration, set_collection_success, set_last_collection,
}
use gcisco_exporter.Cache.{get}
use gcisco_exporter.Scheduler.World.{World, Env, M, ◌>>=◌, observe, pure}
use gcisco_exporter.Scheduler.Steps.{>>=-eq-some, ended_inj}
use gcisco_exporter.Scheduler.Device.{collect_device}
use gcisco_exporter.Scheduler.Ownership.{Owned, traits, All-Reported}
use gcisco_exporter.Scheduler.Frame.{
  Frame, Extends, Frame-observe, Frame-pure, Frame->>=, Frame->>, Frame-reaches,
}
use gcisco_exporter.Scheduler.Frame.Reports.{Frame-emit_all}
use gcisco_exporter.Scheduler.Frame.Calm.{IsCalm}
use gcisco_exporter.Scheduler.Fallback.Isolation.{Isolated, collect_device-Isolated}
use gcisco_exporter.Scheduler.Cycle.{
  note_success, report_job, job, run_jobs, run_collection, is_nil, counted,
}

-- The call is one that a collection of one of the devices may make.
abbrev pub OwnedByOne : {F : Type 0} → MetricSelection → List Device → Call F → Type 0
OwnedByOne ms [] c = ⊥
OwnedByOne ms (d ∷ ds) c = Owned ms d c ⊎ OwnedByOne ms ds c

-- From `w` to `w'` only cache entries of the devices `ds` have changed, and each new call belongs to one
-- of them.
pub record Within {F : Type 0} (cfg : Config) (ds : List Device) (w w' : World F) : Type 0 where
  pub others : (name : String) → All (λ d. name ≢ d.name) ds → get name w'.store ≡ get name w.store
  pub added : List (Call F)
  pub calls : w'.calls ≡ w.calls ++ added
  pub allowed : All (OwnedByOne cfg.metric_selection ds) added

module _ {F : Type 0} where
  All-left :
      (ms : MetricSelection) (d : Device) (ds : List Device) (cs : List (Call F))
      → All (Owned ms d) cs
      → All (OwnedByOne ms (d ∷ ds)) cs
  All-left ms d ds [] h = tt
  All-left ms d ds (c ∷ cs) h = (inl h.0, All-left ms d ds cs h.1)

  All-right :
      (ms : MetricSelection) (d : Device) (ds : List Device) (cs : List (Call F))
      → All (OwnedByOne ms ds) cs
      → All (OwnedByOne ms (d ∷ ds)) cs
  All-right ms d ds [] h = tt
  All-right ms d ds (c ∷ cs) h = (inr h.0, All-right ms d ds cs h.1)

  pub Within-refl : (cfg : Config) (ds : List Device) (w : World F) → Within cfg ds w w
  Within-refl cfg ds w = record {
    others = λ name h. refl;
    added = [];
    calls = sym (append-nil w.calls);
    allowed = tt;
  }

  Within-cons :
      (cfg : Config) (d : Device) (ds : List Device) (u v w : World F)
      → Isolated cfg d u v
      → Within cfg ds v w
      → Within cfg (d ∷ ds) u w
  Within-cons cfg d ds u v w i h = record {
    others = λ name n. h.others name n.1 ∙ i.others name n.0;
    added = i.added ++ h.added;
    calls = h.calls ∙ ap (λ cs. cs ++ h.added) i.calls ∙ append_assoc u.calls i.added h.added;
    allowed =
        All-append (OwnedByOne cfg.metric_selection (d ∷ ds)) i.added h.added
          (All-left cfg.metric_selection d ds i.added i.allowed)
          (All-right cfg.metric_selection d ds h.added h.allowed);
  }

  -- the cache alone, and calls of the device, before and after
  Isolated-between :
      (cfg : Config) (d : Device) (t u v w : World F)
      → Extends (Owned cfg.metric_selection d) t u
      → Isolated cfg d u v
      → Extends (Owned cfg.metric_selection d) v w
      → Isolated cfg d t w
  Isolated-between cfg d t u v w a i b = record {
    others = λ name h. ap (get name) b.store ∙ i.others name h ∙ ap (get name) a.store;
    added = a.added ++ (i.added ++ b.added);
    calls =
        b.calls
        ∙ ap (λ cs. cs ++ b.added) (i.calls ∙ ap (λ cs. cs ++ i.added) a.calls)
        ∙ append_assoc (t.calls ++ a.added) i.added b.added
        ∙ append_assoc t.calls a.added (i.added ++ b.added);
    allowed =
        All-append (Owned cfg.metric_selection d) a.added (i.added ++ b.added) a.allowed
          (All-append (Owned cfg.metric_selection d) i.added b.added i.allowed b.allowed);
  }

module _ {F : Type 0} ⦃fl : Float64 F⦄ (env : Env F) (cfg : Config) where
  pub Frame-note_success :
      (d : Device) (err : Option Error)
      → Frame (Owned cfg.metric_selection d) (IsCalm env) (note_success env cfg d err)
  unfolding note_success set_last_collection traits
  Frame-note_success d none = Frame->>= (Frame-observe env.now) λ t.
      Frame-emit_all (set_last_collection d.name d.host (fl.of_nat (t / 1_000_000_000)) ∷ []) (
        All-Reported {F = F} cfg.metric_selection d true
          (set_last_collection d.name d.host (fl.of_nat (t / 1_000_000_000)) ∷ []) refl refl)
  Frame-note_success d (some e) = Frame-pure tt

  pub Frame-report_job :
      (d : Device) (start : ℕ) (err : Option Error)
      → Frame (Owned cfg.metric_selection d) (IsCalm env) (report_job env cfg d start err)
  unfolding report_job set_collection_duration set_collection_success traits
  Frame-report_job d start err = Frame->>= (Frame-observe (λ t. t)) λ end.
      Frame->>
        (Frame-emit_all
          (set_collection_duration d.name d.host (env.seconds_between start end)
            ∷ set_collection_success d.name d.host (is_nil err)
            ∷ [])
          (All-Reported {F = F} cfg.metric_selection d true
            (set_collection_duration d.name d.host (env.seconds_between start end)
              ∷ set_collection_success d.name d.host (is_nil err)
              ∷ [])
            refl refl))
        (Frame->> (Frame-note_success d err) (Frame-pure (is_nil err)))

  pub job-Isolated :
      (d : Device) (w w' : World F) (ok : Bool)
      → job env cfg d w ≡ some (ok, w')
      → Isolated cfg d w w'
  unfolding job
  job-Isolated d w w' ok e =
      let (start, t, first, rest) = >>=-eq-some (observe (λ t. t)) _ w w' ok e in
      let (err, u, ran, last) =
        >>=-eq-some (collect_device env cfg d) (report_job env cfg d start) t w' ok rest in
      Isolated-between cfg d w t u w'
        (Frame-reaches {N = IsCalm env} (Frame-observe (λ t. t)) w t start first)
        (collect_device-Isolated env cfg d t u err ran)
        (Frame-reaches (Frame-report_job d start err) u w' ok last)

  Within-later :
      (ds : List Device) (w w' : World F) (n : ℕ)
      → Within cfg ds (record w { tick = n }) w'
      → Within cfg ds w w'
  Within-later ds w w' n h = record {
    others = h.others;
    added = h.added;
    calls = h.calls;
    allowed = h.allowed;
  }

  -- one round of the loop, by whether the context was cancelled
  round-Within :
      (d : Device) (ds : List Device) (done : Bool) (rest : Bool → M F (Option (Map Bool)))
      (w w' : World F) (o : Option (Map Bool))
      → (if done then pure none else (job env cfg d >>= rest)) w ≡ some (o, w')
      → ((ok : Bool) (u : World F) → rest ok u ≡ some (o, w') → Within cfg ds u w')
      → Within cfg (d ∷ ds) w w'
  unfolding pure
  round-Within d ds true rest w w' o e ih =
      let (p, q) = ended_inj _ _ _ _ e in
      subst (Within cfg (d ∷ ds) w) q (Within-refl cfg (d ∷ ds) w)
  round-Within d ds false rest w w' o e ih =
      let (ok, u, ran, others) = >>=-eq-some (job env cfg d) rest w w' o e in
      Within-cons cfg d ds w u w' (job-Isolated d w u ok ran) (ih ok u others)

  run_jobs-Within :
      (ds : List Device) (results : Map Bool) (w w' : World F) (o : Option (Map Bool))
      → run_jobs env cfg ds results w ≡ some (o, w')
      → Within cfg ds w w'
  unfolding run_jobs ◌>>=◌ observe pure
  run_jobs-Within [] results w w' o e =
      let (p, q) = ended_inj _ _ _ _ e in subst (Within cfg [] w) q (Within-refl cfg [] w)
  run_jobs-Within (d ∷ ds) results w w' o e = Within-later (d ∷ ds) w w' (w.tick + 1) (
      round-Within d ds (env.is_cancelled w.tick)
        (λ ok. run_jobs env cfg ds (insert d.name ok results)) (record w { tick = w.tick + 1 }) w' o
        e (λ ok u. run_jobs-Within ds (insert d.name ok results) u w' o))

  -- A cycle whose jobs run one after another, whether it is cut short or not, leaves the cache entries of all names that no configured
  -- device has, and only adds calls whose first two labels are the name and host of a configured
  -- device, which have a value for each label name of their vector, and which are of a selected
  -- category, but for the uptime, which is reported when the hardware category is selected.
  pub run_collection-Within :
      (w w' : World F) (n : Option ℕ)
      → run_collection env cfg w ≡ some (n, w')
      → Within cfg cfg.devices w w'
  unfolding run_collection pure
  run_collection-Within w w' n e =
      let (results, u, ran, last) =
        >>=-eq-some (run_jobs env cfg cfg.devices []) (λ results. pure (counted results)) w w' n
          e in
      let (p, q) = ended_inj _ _ _ _ last in
      subst (Within cfg cfg.devices w) q (run_jobs-Within cfg.devices [] w u results ran)
