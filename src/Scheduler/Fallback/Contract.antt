-- ===== src/Scheduler/Fallback/Contract.antt =====
-- `collectDevice`: which method decides, and what has been reported when it returns.
use gcisco_exporter.Base.{
  ◌≡◌, refl, ◌∙◌, sym, ap, String, Option, none, some, List, ◌∷◌, ◌++◌, ◌⊎◌, inl, inr,
}
use gcisco_exporter.Float.{Float64}
use gcisco_exporter.Error.{Error, credential_not_found, all_methods_failed}
use gcisco_exporter.Config.{Device, Credential, Config, timeout_duration}
use gcisco_exporter.Scheduler.World.{Results, World, Env, pure}
use gcisco_exporter.Scheduler.Steps.{ended_inj}
use gcisco_exporter.Scheduler.Device.{
  attempt, try_methods, with_credential, collect_device, find_credential,
}
use gcisco_exporter.Scheduler.Fallback.{
  Failing, reported_up, reported_down, Verdict, try-first_success, try-all_fail, try-Verdict,
}

module _ {F : Type 0} ⦃fl : Float64 F⦄ (env : Env F) (cfg : Config) (d : Device) where
  -- What `collectDevice` may do from `w`: without a credential nothing but return an error; with one,
  -- what the list of methods decides.
  abbrev pub Outcome : World F → Option Error → World F → Type 0
  Outcome w r w' =
      ((find_credential d.credential_name cfg.credentials ≡ none)
        × (r ≡ some (credential_not_found d.credential_name d.name))
        × (w' ≡ w))
      ⊎ ((cred : Credential) × (find_credential d.credential_name cfg.credentials ≡ some cred)
          × Verdict env cfg d cred (timeout_duration env.parse_duration cfg) d.collection_methods w
              r w')

  with_credential-Outcome :
      (o : Option Credential) (w w' : World F) (r : Option Error)
      → find_credential d.credential_name cfg.credentials ≡ o
      → with_credential env cfg d o w ≡ some (r, w')
      → Outcome w r w'
  unfolding with_credential pure
  with_credential-Outcome none w w' r found e =
      let (p, q) = ended_inj _ _ _ _ e in inl (found, sym p, sym q)
  with_credential-Outcome (some cred) w w' r found e =
      inr (cred, found, try-Verdict env cfg d cred _ d.collection_methods w w' r e)

  -- A collection that returns nil has tried methods in the order of the configuration up to the first
  -- that succeeds, has cached its result under the device's name, and has reported the device up with
  -- that method. One that returns an error has found no credential and done nothing, or every method
  -- has failed, and the device was reported down and the cache left alone.
  pub collect_device-Outcome :
      (w w' : World F) (r : Option Error)
      → collect_device env cfg d w ≡ some (r, w')
      → Outcome w r w'
  unfolding collect_device
  collect_device-Outcome w w' r e =
      with_credential-Outcome (find_credential d.credential_name cfg.credentials) w w' r refl e

  module _ (cred : Credential)
      (found : find_credential d.credential_name cfg.credentials ≡ some cred) where
    -- When the methods before `m` fail and `m` succeeds, `collectDevice` returns nil, and no method
    -- after `m` is tried.
    pub collect_device-first_success :
        (pre post : List String) (m : String) (result : Results F) (w v u : World F)
        → d.collection_methods ≡ pre ++ m ∷ post
        → Failing env cfg d cred (timeout_duration env.parse_duration cfg) pre w v
        → attempt env cfg d cred (timeout_duration env.parse_duration cfg) m v
          ≡ some (inr result, u)
        → collect_device env cfg d w ≡ some (none, reported_up env cfg d m result u)
    unfolding collect_device with_credential
    collect_device-first_success pre post m result w v u methods failed ok =
        let timeout = timeout_duration env.parse_duration cfg in
        rw (found, with_credential)
          (ap (λ ms. try_methods env cfg d cred timeout ms w) methods
            ∙ try-first_success env cfg d cred timeout pre post m result w v u failed ok)

    -- When every method fails, `collectDevice` returns an error and reports the device down.
    pub collect_device-all_fail :
        (w v : World F)
        → Failing env cfg d cred (timeout_duration env.parse_duration cfg) d.collection_methods w v
        → collect_device env cfg d w
          ≡ some (some (all_methods_failed d.name), reported_down env cfg d v)
    unfolding collect_device with_credential
    collect_device-all_fail w v failed =
        rw (found, with_credential) (try-all_fail env cfg d cred _ d.collection_methods w v failed)
