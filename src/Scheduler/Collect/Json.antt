-- ===== src/Scheduler/Collect/Json.antt =====
-- `collectJSON`, one function for each category that the configuration selects.
pub mod Tables
use gcisco_exporter.Base.{
  String, Bool, List, [], ◌∷◌, ◌++◌, ◌⊎◌, inl, inr, insert, flat_map, if◌then◌else◌,
}
use gcisco_exporter.Int.{ℤ}
use gcisco_exporter.Float.{Float64}
use gcisco_exporter.Error.{Error}
use gcisco_exporter.Config.{MetricSelection, Device, Credential, Config}
use gcisco_exporter.Metrics.{Call}
use gcisco_exporter.Metrics.Setters.Health.{
  set_temperature, set_fan_status, set_power_supply_status, set_power_redundancy_status,
  set_module_status, set_stack_member_status,
}
use gcisco_exporter.Provider.Json.{HardwareData, JsonProvider}
use gcisco_exporter.Scheduler.World.{
  Results, system, resources, processes, hardware, interfaces, optics, World, Env, M, ◌>>=◌, ◌>>◌,
  pure, observe, consult, emit_all, when, unless_failed, on_ok, on_success,
}
use gcisco_exporter.Scheduler.Collect.Calls.{
  system_calls, resource_calls, process_calls, interface_calls, optic_calls, each_entry,
}
use Tables.{json_layer2, json_ether_channel, json_layer3, json_maintenance, json_capacity}

module _ {F : Type 0} ⦃fl : Float64 F⦄ where
  unfoldable pub hardware_calls : Device → HardwareData F → List (Call F)
  hardware_calls d hw =
      each_entry (set_temperature d.name d.host) hw.temperature
      ++ (each_entry (set_fan_status d.name d.host) hw.fan_status
          ++ (each_entry (set_power_supply_status d.name d.host) hw.power_supply
              ++ (set_power_redundancy_status d.name d.host hw.power_redundant
                  ∷ (each_entry (set_module_status d.name d.host) hw.module_status
                      ++ each_entry (set_stack_member_status d.name d.host)
                          hw.stack_member_status))))

module _ {F : Type 0} ⦃fl : Float64 F⦄ (env : Env F) (d : Device) where
  -- the part under `ms.HardwareHealth`: only the first method ends the collection when it fails
  unfoldable pub json_hardware : Results F → M F (Error ⊎ Results F)
  json_hardware result = do
    (sys, err) ← consult (λ t. env.json.collect_system t d)
    unless_failed err "collect system" (do
      emit_all (system_calls d sys)
      (res, err) ← consult (λ t. env.json.collect_resources t d)
      emit_all (on_success err (resource_calls d res))
      (procs, err) ← consult (λ t. env.json.collect_processes t d d.process_limit)
      emit_all (on_success err (flat_map (process_calls d) procs))
      (hw, err) ← consult (λ t. env.json.collect_hardware t d)
      emit_all (on_success err (hardware_calls d hw))
      pure (
          inr (
            insert "hardware" (hardware hw) (
              insert "processes" (processes procs)
                (insert "resources" (resources res) (insert "system" (system sys) result))))))

  -- what the two methods return is reported whether or not they fail
  unfoldable pub json_interfaces : Results F → M F (Results F)
  json_interfaces result = do
    (ifaces, err) ← consult (λ t. env.json.collect_interfaces t d)
    emit_all (flat_map (interface_calls d) ifaces)
    (opts, err) ← consult (λ t. env.json.collect_optics t d)
    emit_all (flat_map (optic_calls d) opts)
    pure (insert "optics" (optics opts) (insert "interfaces" (interfaces ifaces) result))

  unfoldable pub json_sections : MetricSelection → M F (Error ⊎ Results F)
  json_sections ms = do
    r ← when ms.hardware_health (inr []) (json_hardware [])
    on_ok r λ result. do
      result ← when ms.interfaces result (json_interfaces result)
      result ← when ms.layer2_stability result (json_layer2 env d result)
      result ← when ms.etherchannel result (json_ether_channel env d result)
      result ← when ms.layer3_tables result (json_layer3 env d result)
      result ← when ms.system_maintenance result (json_maintenance env d result)
      result ← when ms.capacity_trends result (json_capacity env d result)
      pure (inr result)

  unfoldable pub collect_json : Config → Credential → ℤ → M F (Error ⊎ Results F)
  collect_json cfg cred timeout = do
    err ← observe (λ t. env.dial t d cred timeout cfg.legacy_ciphers)
    unless_failed err "SSH connect" (json_sections cfg.metric_selection)
