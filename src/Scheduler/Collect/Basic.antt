-- ===== src/Scheduler/Collect/Basic.antt =====
-- `collectRESTCONF` and `collectNETCONF`.
use gcisco_exporter.Base.{◌⊎◌, inr, [], insert, flat_map}
use gcisco_exporter.Float.{Float64}
use gcisco_exporter.Error.{Error}
use gcisco_exporter.Config.{MetricSelection, Device, Credential, Config}
use gcisco_exporter.Provider.Basic.{BasicProvider}
use gcisco_exporter.Scheduler.World.{
  Results, system, basic_resources, processes, basic_interfaces, Env, M, ◌>>=◌, ◌>>◌, pure, observe,
  consult, emit_all, when, unless_failed, on_ok, on_success,
}
use gcisco_exporter.Scheduler.Collect.Calls.{
  system_calls, basic_resource_calls, process_calls, basic_interface_calls,
}

-- The two functions do the same with their provider once it is connected.
module _ {F : Type 0} ⦃fl : Float64 F⦄ (provider : BasicProvider F) (d : Device)
    (cred : Credential) where
  unfoldable pub basic_hardware : Results F → M F (Error ⊎ Results F)
  basic_hardware result = do
    (sys, err) ← consult (λ t. provider.collect_system t d cred)
    unless_failed err "collect system" (do
      emit_all (system_calls d sys)
      (res, err) ← consult (λ t. provider.collect_resources t d cred)
      emit_all (on_success err (basic_resource_calls d res))
      (procs, err) ← consult (λ t. provider.collect_processes t d cred d.process_limit)
      emit_all (on_success err (flat_map (process_calls d) procs))
      pure (
          inr (
            insert "processes" (processes procs)
              (insert "resources" (basic_resources res) (insert "system" (system sys) result)))))

  unfoldable pub basic_ifaces : Results F → M F (Results F)
  basic_ifaces result = do
    (ifaces, err) ← consult (λ t. provider.collect_interfaces t d cred)
    emit_all (flat_map (basic_interface_calls d) ifaces)
    pure (insert "interfaces" (basic_interfaces ifaces) result)

  unfoldable pub basic_sections : MetricSelection → M F (Error ⊎ Results F)
  basic_sections ms = do
    r ← when ms.hardware_health (inr []) (basic_hardware [])
    on_ok r λ result. do result ← when ms.interfaces result (basic_ifaces result); pure (inr result)

module _ {F : Type 0} ⦃fl : Float64 F⦄ (env : Env F) (d : Device) where
  unfoldable pub collect_restconf : Config → Credential → M F (Error ⊎ Results F)
  collect_restconf cfg cred = basic_sections env.restconf d cred cfg.metric_selection

  unfoldable pub collect_netconf : Config → Credential → M F (Error ⊎ Results F)
  collect_netconf cfg cred = do
    err ← observe (λ t. env.netconf_connect t d cred)
    unless_failed err "NETCONF connect" (basic_sections env.netconf d cred cfg.metric_selection)
