-- ===== src/Scheduler/Fallback/Isolation.antt =====
-- `collectDevice` touches nothing of another device.
use gcisco_exporter.Base.{
  ◌≡◌, ◌≢◌, refl, ◌∙◌, sym, ap, String, true, Option, none, some, List, [], ◌∷◌, ◌++◌, append-nil,
  append_assoc, All, All-append, inl, inr, eq_iff, arith,
}
use gcisco_exporter.Float.{Float64}
use gcisco_exporter.Error.{Error}
use gcisco_exporter.Config.{Device, Credential, Config}
use gcisco_exporter.Int.{ℤ}
use gcisco_exporter.Metrics.{Call}
use gcisco_exporter.Metrics.Setters.Device.{set_device_up, set_collection_method}
use gcisco_exporter.Cache.{get, update}
use gcisco_exporter.Cache.Laws.{get-update}
use gcisco_exporter.Scheduler.World.{Results, World, Env}
use gcisco_exporter.Scheduler.Device.{collect_device}
use gcisco_exporter.Scheduler.Ownership.{traits, Owned, All-Owned}
use gcisco_exporter.Scheduler.Frame.{Extends, Extends-refl, Extends-trans, Frame-reaches}
use gcisco_exporter.Scheduler.Frame.Attempt.{Frame-attempt}
use gcisco_exporter.Scheduler.Fallback.{Failing, up_calls, down_calls, Verdict}
use gcisco_exporter.Scheduler.Fallback.Contract.{Outcome, collect_device-Outcome}

-- From `w` to `w'` no other device's cache entry has changed, and each new call is the device's own.
pub record Isolated {F : Type 0} (cfg : Config) (d : Device) (w w' : World F) : Type 0 where
  pub others : (name : String) → name ≢ d.name → get name w'.store ≡ get name w.store
  pub added : List (Call F)
  pub calls : w'.calls ≡ w.calls ++ added
  pub allowed : All (Owned cfg.metric_selection d) added

module _ {F : Type 0} ⦃fl : Float64 F⦄ (env : Env F) (cfg : Config) (d : Device) where
  up_calls-Owned : (m : String) → All (Owned {F = F} cfg.metric_selection d) (up_calls env cfg d m)
  unfolding set_device_up set_collection_method traits
  up_calls-Owned m = All-Owned {F = F} cfg.metric_selection d true (up_calls env cfg d m) refl refl

  down_calls-Owned : All (Owned {F = F} cfg.metric_selection d) (down_calls env cfg d)
  unfolding set_device_up traits
  down_calls-Owned = All-Owned {F = F} cfg.metric_selection d true (down_calls env cfg d) refl refl

  get-update_other :
      (name : String) (u : World F) (result : Results F)
      → name ≢ d.name
      → get name (update (env.now u.tick) d.name result u.store) ≡ get name u.store
  get-update_other name u result h =
      get-update (env.now u.tick) d.name name result u.store ∙ ground (arith, eq_iff d.name name)

  module _ (cred : Credential) (timeout : ℤ) where
    Failing-Extends :
        (ms : List String) (w v : World F)
        → Failing env cfg d cred timeout ms w v
        → Extends (Owned cfg.metric_selection d) w v
    Failing-Extends [] w v same = rw same (Extends-refl v)
    Failing-Extends (m ∷ ms) w v (e, u, ran, others) =
        Extends-trans (Frame-reaches (Frame-attempt env cfg d cred timeout m) w u (inl e) ran)
          (Failing-Extends ms u v others)

    Verdict-Isolated :
        (ms : List String) (w w' : World F) (r : Option Error)
        → Verdict env cfg d cred timeout ms w r w'
        → Isolated cfg d w w'
    Verdict-Isolated ms w w' none (pre, m, post, v, result, u, split, failed, ok, final) =
        let e =
          Extends-trans (Failing-Extends pre w v failed)
            (Frame-reaches (Frame-attempt env cfg d cred timeout m) v u (inr result) ok) in
        rw final (record {
          others = λ name h. get-update_other name u result h ∙ ap (get name) e.store;
          added = e.added ++ up_calls env cfg d m;
          calls =
              ap (λ cs. cs ++ up_calls env cfg d m) e.calls
              ∙ append_assoc w.calls e.added (up_calls env cfg d m);
          allowed = All-append _ e.added (up_calls env cfg d m) e.allowed (up_calls-Owned m);
        })
    Verdict-Isolated ms w w' (some x) (v, failed, same, final) =
        let e = Failing-Extends ms w v failed in
        rw final (record {
          others = λ name h. ap (get name) e.store;
          added = e.added ++ down_calls env cfg d;
          calls =
              ap (λ cs. cs ++ down_calls env cfg d) e.calls
              ∙ append_assoc w.calls e.added (down_calls env cfg d);
          allowed = All-append _ e.added (down_calls env cfg d) e.allowed down_calls-Owned;
        })

  Outcome-Isolated :
      (w w' : World F) (r : Option Error) → Outcome env cfg d w r w' → Isolated cfg d w w'
  Outcome-Isolated w w' r (inl (missing, same, final)) = rw final (record {
    others = λ name h. refl;
    added = [];
    calls = sym (append-nil w.calls);
    allowed = tt;
  })
  Outcome-Isolated w w' r (inr (cred, found, v)) =
      Verdict-Isolated cred _ d.collection_methods w w' r v

  -- Whatever a collection from a device ends with, it has left the cache entries of all other devices
  -- alone, and has only added calls whose first two labels are the device's name and host, which have
  -- a value for each label name of their vector, and which are of a selected category, but for the uptime,
  -- which is reported when the hardware category is selected.
  pub collect_device-Isolated :
      (w w' : World F) (r : Option Error)
      → collect_device env cfg d w ≡ some (r, w')
      → Isolated cfg d w w'
  collect_device-Isolated w w' r e =
      Outcome-Isolated w w' r (collect_device-Outcome env cfg d w w' r e)
