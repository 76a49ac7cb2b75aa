-- ===== src/Scheduler/Fallback.antt =====
-- `collectDevice` against its contract: the methods are tried in their order, and the first success
-- decides.
pub mod Contract
pub mod Isolation
pub mod Credentials
pub mod Sessions
pub mod Returns
use gcisco_exporter.Base.{
  ℕ, ◌+◌, ◌≡◌, ◌≢◌, refl, ◌∙◌, sym, ap, String, true, false, Option, none, some, List, [], ◌∷◌,
  ◌++◌, ◌⊎◌, inl, inr, All, Option-cases,
}
use gcisco_exporter.Float.{Float64}
use gcisco_exporter.Int.{ℤ}
use gcisco_exporter.Error.{Error, credential_not_found, all_methods_failed}
use gcisco_exporter.Config.{Device, Credential, Config, timeout_duration}
use gcisco_exporter.Metrics.{Call, are_accepted, accepts}
use gcisco_exporter.Metrics.Setters.Device.{set_device_up, set_collection_method}
use gcisco_exporter.Cache.{update}
use gcisco_exporter.Scheduler.World.{Results, World, Env, M, ◌>>=◌, ◌>>◌, pure, emit_all, remember}
use gcisco_exporter.Scheduler.Steps.{>>=-step, >>=-eq-some, ended_inj}
use gcisco_exporter.Scheduler.Device.{
  attempt, succeed, give_up, proceed, try_methods, with_credential, collect_device, find_credential,
  method_to_float,
}

module _ {F : Type 0} ⦃fl : Float64 F⦄ (env : Env F) (cfg : Config) (d : Device) where
  -- What is reported after a success of `method`, and after the failure of all methods.
  abbrev pub up_calls : String → List (Call F)
  up_calls method =
      set_device_up d.name d.host d.device_type true
      ∷ set_collection_method d.name d.host (method_to_float method)
      ∷ []

  abbrev pub down_calls : List (Call F)
  down_calls = set_device_up d.name d.host d.device_type false ∷ []

  -- The world after a success of `method` that left the world `u`.
  abbrev pub reported_up : String → Results F → World F → World F
  reported_up method result u = record u {
    tick = u.tick + 1;
    calls = u.calls ++ up_calls method;
    store = update (env.now u.tick) d.name result u.store;
  }

  -- The world after the failure of all methods.
  abbrev pub reported_down : World F → World F
  reported_down u = record u { calls = u.calls ++ down_calls }

  pub succeed_lem :
      (method : String) (result : Results F) (u : World F)
      → succeed env cfg d method result u ≡ some (none, reported_up method result u)
  unfolding succeed ◌>>=◌ ◌>>◌ remember emit_all are_accepted accepts set_device_up
      set_collection_method pure
  succeed_lem method result u = refl

  pub give_up_lem :
      (u : World F) → give_up env cfg d u ≡ some (some (all_methods_failed d.name), reported_down u)
  unfolding give_up ◌>>◌ emit_all are_accepted accepts set_device_up pure
  give_up_lem u = refl

  module _ (cred : Credential) (timeout : ℤ) where
    -- Each method of the list returns an error, in its order, from the world `w` to the world `v`.
    abbrev pub Failing : List String → World F → World F → Type 0
    Failing [] w v = w ≡ v
    Failing (m ∷ ms) w v =
        (e : Error) × (u : World F) × (attempt env cfg d cred timeout m w ≡ some (inl e, u))
        × Failing ms u v

    pub try-first_success :
        (pre post : List String) (m : String) (result : Results F) (w v u : World F)
        → Failing pre w v
        → attempt env cfg d cred timeout m v ≡ some (inr result, u)
        → try_methods env cfg d cred timeout (pre ++ m ∷ post) w
          ≡ some (none, reported_up m result u)
    unfolding try_methods proceed ◌>>=◌
    try-first_success [] post m result w v u same ok =
        rw same (
          >>=-step (attempt env cfg d cred timeout m) _ v u (inr result) ok
          ∙ succeed_lem m result u)
    try-first_success (p ∷ pre) post m result w v u (e, x, failed, others) ok =
        >>=-step (attempt env cfg d cred timeout p) _ w x (inl e) failed
        ∙ try-first_success pre post m result x v u others ok

    pub try-all_fail :
        (ms : List String) (w v : World F)
        → Failing ms w v
        → try_methods env cfg d cred timeout ms w
          ≡ some (some (all_methods_failed d.name), reported_down v)
    unfolding try_methods proceed ◌>>=◌
    try-all_fail [] w v same = rw same (give_up_lem v)
    try-all_fail (m ∷ ms) w v (e, u, failed, others) =
        >>=-step (attempt env cfg d cred timeout m) _ w u (inl e) failed
        ∙ try-all_fail ms u v others

    -- How a run over a list of methods ended: with the first success, or with none.
    abbrev pub Verdict : List String → World F → Option Error → World F → Type 0
    Verdict ms w none w' =
        (pre : List String) × (m : String) × (post : List String) × (v : World F)
        × (result : Results F) × (u : World F) × (ms ≡ pre ++ m ∷ post)
        × Failing pre w v
        × (attempt env cfg d cred timeout m v ≡ some (inr result, u))
        × (w' ≡ reported_up m result u)
    Verdict ms w (some e) w' =
        (v : World F) × Failing ms w v × (e ≡ all_methods_failed d.name) × (w' ≡ reported_down v)

    Verdict-cons :
        (m : String) (ms : List String) (w u w' : World F) (x : Error) (r : Option Error)
        → attempt env cfg d cred timeout m w ≡ some (inl x, u)
        → Verdict ms u r w'
        → Verdict (m ∷ ms) w r w'
    Verdict-cons m ms w u w' x none failed (pre, n, post, v, result, z, split, before, ok, final) =
        (m ∷ pre, n, post, v, result, z, ap (λ l. m ∷ l) split, (x, u, failed, before), ok, final)
    Verdict-cons m ms w u w' x (some e) failed (v, before, same, final) =
        (v, (x, u, failed, before), same, final)

    attempt-Verdict :
        (m : String) (ms : List String) (w u w' : World F) (r : Option Error)
        (o : Error ⊎ Results F)
        → attempt env cfg d cred timeout m w ≡ some (o, u)
        → proceed env cfg d m (try_methods env cfg d cred timeout ms) o u ≡ some (r, w')
        → ((v : World F)
            → try_methods env cfg d cred timeout ms v ≡ some (r, w')
            → Verdict ms v r w')
        → Verdict (m ∷ ms) w r w'
    unfolding proceed
    attempt-Verdict m ms w u w' r (inl x) ran rest ih = Verdict-cons m ms w u w' x r ran (ih u rest)
    attempt-Verdict m ms w u w' r (inr result) ran rest ih =
        let (p, q) = ended_inj _ _ _ _ (sym (succeed_lem m result u) ∙ rest) in
        rw (← p, ← q) ([], m, ms, w, result, u, refl, refl, ran, refl)

    pub try-Verdict :
        (ms : List String) (w w' : World F) (r : Option Error)
        → try_methods env cfg d cred timeout ms w ≡ some (r, w')
        → Verdict ms w r w'
    unfolding try_methods
    try-Verdict [] w w' r e =
        let (p, q) = ended_inj _ _ _ _ (sym (give_up_lem w) ∙ e) in
        rw (← p, ← q) (w, refl, refl, refl)
    try-Verdict (m ∷ ms) w w' r e =
        let (o, u, ran, rest) = >>=-eq-some (attempt env cfg d cred timeout m) _ w w' r e in
        attempt-Verdict m ms w u w' r o ran rest (λ v. try-Verdict ms v w' r)
