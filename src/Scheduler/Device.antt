-- ===== src/Scheduler/Device.antt =====
-- `collectDevice`: the collection methods of a device, one after another until one succeeds.
use gcisco_exporter.Base.{
  ◌==◌, String, true, false, Option, none, some, List, [], ◌∷◌, ◌⊎◌, inl, inr, if◌then◌else◌,
}
use gcisco_exporter.Float.{Float64}
use gcisco_exporter.Int.{ℤ}
use gcisco_exporter.Error.{Error, credential_not_found, unknown_method, all_methods_failed}
use gcisco_exporter.Config.{Device, Credential, Config, timeout_duration}
use gcisco_exporter.Metrics.Setters.Device.{set_device_up, set_collection_method}
use gcisco_exporter.Scheduler.World.{Results, Env, M, ◌>>=◌, ◌>>◌, pure, emit_all, remember}
use gcisco_exporter.Scheduler.Collect.Json.{collect_json}
use gcisco_exporter.Scheduler.Collect.Ssh.{collect_ssh}
use gcisco_exporter.Scheduler.Collect.Basic.{collect_restconf, collect_netconf}

-- the loop of `findCredential`
unfoldable pub find_named : String → List Credential → Option Credential
find_named name [] = none
find_named name (c ∷ cs) = if c.name == name then some c else find_named name cs

unfoldable pub first_of_list : List Credential → Option Credential
first_of_list [] = none
first_of_list (c ∷ cs) = some c

unfoldable pub find_credential : String → List Credential → Option Credential
find_credential name cs = elim (find_named name cs) [
  | some c ↦ some c
  | none ↦ if name == "" then first_of_list cs else none
]

unfoldable pub method_to_float : {F : Type 0} ⦃fl : Float64 F⦄ → String → F
method_to_float ⦃fl⦄ method =
    if method == "json"
    then fl.of_nat 1
    else if method == "restconf"
    then fl.of_nat 2
    else if method == "netconf"
    then fl.of_nat 3
    else if method == "ssh"
    then fl.of_nat 4
    else fl.of_nat 0

module _ {F : Type 0} ⦃fl : Float64 F⦄ (env : Env F) (cfg : Config) (d : Device) where
  -- the `switch` on the method
  unfoldable pub attempt : Credential → ℤ → String → M F (Error ⊎ Results F)
  attempt cred timeout method =
      if method == "json"
      then collect_json env d cfg cred timeout
      else if method == "ssh"
      then collect_ssh env d cfg cred timeout
      else if method == "restconf"
      then collect_restconf env d cfg cred
      else if method == "netconf"
      then collect_netconf env d cfg cred
      else pure (inl (unknown_method method))

  -- A method has succeeded. (`providerName` is then the method's name.)
  unfoldable pub succeed : String → Results F → M F (Option Error)
  succeed method result = do
    remember env d.name result
    emit_all (
        set_device_up d.name d.host d.device_type true
        ∷ set_collection_method d.name d.host (method_to_float method)
        ∷ [])
    pure none

  unfoldable pub give_up : M F (Option Error)
  give_up = do
    emit_all (set_device_up d.name d.host d.device_type false ∷ [])
    pure (some (all_methods_failed d.name))

  -- what the loop does with the outcome of a method: the rest of the methods, or `succeed`
  unfoldable pub proceed : String → M F (Option Error) → Error ⊎ Results F → M F (Option Error)
  proceed method rest (inl e) = rest
  proceed method rest (inr result) = succeed method result

  unfoldable pub try_methods : Credential → ℤ → List String → M F (Option Error)
  unfolding proceed
  try_methods cred timeout [] = give_up
  try_methods cred timeout (m ∷ ms) =
      attempt cred timeout m >>= proceed m (try_methods cred timeout ms)

  unfoldable pub with_credential : Option Credential → M F (Option Error)
  with_credential none = pure (some (credential_not_found d.credential_name d.name))
  with_credential (some cred) =
      try_methods cred (timeout_duration env.parse_duration cfg) d.collection_methods

  -- The error that is returned, or `none` for nil.
  unfoldable pub collect_device : M F (Option Error)
  unfolding with_credential
  collect_device = with_credential (find_credential d.credential_name cfg.credentials)
