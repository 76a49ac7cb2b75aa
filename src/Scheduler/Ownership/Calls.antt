-- ===== src/Scheduler/Ownership/Calls.antt =====
-- The calls that report one item of a provider's data are the device's own.
use gcisco_exporter.Base.{◌≡◌, refl, String, true, [], ◌∷◌, Map, All}
use gcisco_exporter.Float.{Float64}
use gcisco_exporter.Config.{MetricSelection, Device}
use gcisco_exporter.Metrics.{Call}
use gcisco_exporter.Metrics.Setters.Device.{
  set_cpu_usage, set_device_info, set_device_uptime, set_memory_free, set_memory_total,
  set_memory_used, set_process_cpu, set_process_runtime,
}
use gcisco_exporter.Metrics.Setters.Interface.{
  set_interface_admin_up, set_interface_mtu, set_interface_oper_up, set_interface_resets,
  set_interface_rx_bytes, set_interface_rx_crc_errors, set_interface_rx_discards,
  set_interface_rx_drops, set_interface_rx_errors, set_interface_rx_frame_errors,
  set_interface_rx_giants, set_interface_rx_runts, set_interface_speed, set_interface_tx_bytes,
  set_interface_tx_discards, set_interface_tx_drops, set_interface_tx_errors,
  set_optic_bias_current, set_optic_rx_power, set_optic_temperature, set_optic_tx_power,
  set_optic_voltage,
}
use gcisco_exporter.Provider.Json.{SystemData, ResourceData, ProcessData, InterfaceData, OpticData}
use gcisco_exporter.Provider.Basic.{BasicResources, BasicInterface}
use gcisco_exporter.Provider.Cli.{CliVersion, CliInterface}
use gcisco_exporter.Scheduler.Collect.Calls.{
  system_calls, resource_calls, process_calls, interface_calls, optic_calls, cli_version_calls,
  cli_interface_calls, basic_resource_calls, basic_interface_calls, each_entry,
}
use gcisco_exporter.Scheduler.Ownership.{traits, Owned, Reported, All-Owned, All-Reported}

module _ (F : Type 0) ⦃fl : Float64 F⦄ (ms : MetricSelection) (d : Device) where
  pub system_calls-Reported :
      (x : SystemData F)
      → ms.hardware_health ≡ true
      → All (Reported {F = F} ms d) (system_calls d x)
  unfolding system_calls set_device_info set_device_uptime traits
  system_calls-Reported sys h =
      All-Reported {F = F} ms d ms.hardware_health (system_calls d sys) h refl

  pub resource_calls-Reported :
      (x : ResourceData F)
      → ms.hardware_health ≡ true
      → All (Reported {F = F} ms d) (resource_calls d x)
  unfolding resource_calls set_cpu_usage set_memory_total set_memory_used set_memory_free traits
  resource_calls-Reported res h =
      All-Reported {F = F} ms d ms.hardware_health (resource_calls d res) h refl

  pub process_calls-Reported :
      (x : ProcessData F)
      → ms.hardware_health ≡ true
      → All (Reported {F = F} ms d) (process_calls d x)
  unfolding process_calls set_process_cpu set_process_runtime traits
  process_calls-Reported proc h =
      All-Reported {F = F} ms d ms.hardware_health (process_calls d proc) h refl

  pub interface_calls-Owned :
      (x : InterfaceData F) → ms.interfaces ≡ true → All (Owned {F = F} ms d) (interface_calls d x)
  unfolding interface_calls set_interface_admin_up set_interface_oper_up set_interface_rx_bytes
      set_interface_tx_bytes set_interface_rx_errors set_interface_tx_errors
      set_interface_rx_crc_errors set_interface_rx_frame_errors set_interface_rx_runts
      set_interface_rx_giants set_interface_rx_drops set_interface_tx_drops
      set_interface_rx_discards set_interface_tx_discards set_interface_resets set_interface_speed
      set_interface_mtu traits
  interface_calls-Owned iface h =
      All-Owned {F = F} ms d ms.interfaces (interface_calls d iface) h refl

  pub optic_calls-Reported :
      (x : String × OpticData F)
      → ms.interfaces ≡ true
      → All (Reported {F = F} ms d) (optic_calls d x)
  unfolding optic_calls set_optic_rx_power set_optic_tx_power set_optic_temperature
      set_optic_voltage set_optic_bias_current traits
  optic_calls-Reported (iface, optic) h =
      All-Reported {F = F} ms d ms.interfaces (optic_calls d (iface, optic)) h refl

  pub cli_version_calls-Reported :
      (x : CliVersion F)
      → ms.hardware_health ≡ true
      → All (Reported {F = F} ms d) (cli_version_calls d x)
  unfolding cli_version_calls set_device_info set_device_uptime traits
  cli_version_calls-Reported v h =
      All-Reported {F = F} ms d ms.hardware_health (cli_version_calls d v) h refl

  pub cli_interface_calls-Owned :
      (x : CliInterface F)
      → ms.interfaces ≡ true
      → All (Owned {F = F} ms d) (cli_interface_calls d x)
  unfolding cli_interface_calls set_interface_admin_up set_interface_oper_up set_interface_rx_bytes
      set_interface_tx_bytes set_interface_rx_errors set_interface_tx_errors
      set_interface_rx_crc_errors set_interface_rx_runts set_interface_rx_giants
      set_interface_rx_drops set_interface_tx_drops set_interface_rx_discards
      set_interface_tx_discards set_interface_resets set_interface_speed set_interface_mtu traits
  cli_interface_calls-Owned iface h =
      All-Owned {F = F} ms d ms.interfaces (cli_interface_calls d iface) h refl

  pub basic_resource_calls-Reported :
      (x : BasicResources F)
      → ms.hardware_health ≡ true
      → All (Reported {F = F} ms d) (basic_resource_calls d x)
  unfolding basic_resource_calls set_cpu_usage set_memory_total set_memory_used set_memory_free
      traits
  basic_resource_calls-Reported res h =
      All-Reported {F = F} ms d ms.hardware_health (basic_resource_calls d res) h refl

  pub basic_interface_calls-Owned :
      (x : BasicInterface F)
      → ms.interfaces ≡ true
      → All (Owned {F = F} ms d) (basic_interface_calls d x)
  unfolding basic_interface_calls set_interface_admin_up set_interface_oper_up
      set_interface_rx_bytes set_interface_tx_bytes set_interface_rx_errors set_interface_tx_errors
      traits
  basic_interface_calls-Owned iface h =
      All-Owned {F = F} ms d ms.interfaces (basic_interface_calls d iface) h refl

module _ {F : Type 0} where
  pub All-each_entry :
      {V : Type 0} (P : Call F → Type 0) (f : String → V → Call F) (m : Map V)
      → ((k : String) (v : V) → P (f k v))
      → All P (each_entry f m)
  unfolding each_entry
  All-each_entry P f [] h = tt
  All-each_entry P f ((k, v) ∷ m) h = (h k v, All-each_entry P f m h)
