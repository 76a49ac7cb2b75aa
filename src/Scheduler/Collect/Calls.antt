-- ===== src/Scheduler/Collect/Calls.antt =====
-- The calls of the collector that report one item of a provider's data, in the order of the source.
use gcisco_exporter.Base.{String, List, [], ◌∷◌, Map}
use gcisco_exporter.Float.{Float64}
use gcisco_exporter.Config.{Device}
use gcisco_exporter.Metrics.{Call}
use gcisco_exporter.Metrics.Setters.Device.{
  set_cpu_usage, set_device_info, set_device_uptime, set_memory_free, set_memory_total,
  set_memory_used, set_process_cpu, set_process_runtime,
}
use gcisco_exporter.Metrics.Setters.Interface.{
  set_interface_admin_up, set_interface_mtu, set_interface_oper_up, set_interface_resets,
  set_interface_rx_bytes, set_interface_rx_crc_errors, set_interface_rx_discards,
  set_interface_rx_drops, set_interface_rx_errors, set_interface_rx_frame_errors,
  set_interface_rx_giants, set_interface_rx_runts, set_interface_speed, set_interface_tx_bytes,
  set_interface_tx_discards, set_interface_tx_drops, set_interface_tx_errors,
  set_optic_bias_current, set_optic_rx_power, set_optic_temperature, set_optic_tx_power,
  set_optic_voltage,
}
use gcisco_exporter.Provider.Json.{SystemData, ResourceData, ProcessData, InterfaceData, OpticData}
use gcisco_exporter.Provider.Basic.{BasicResources, BasicInterface}
use gcisco_exporter.Provider.Cli.{CliVersion, CliInterface}

module _ {F : Type 0} where
  -- one call for each entry of a map, in the order of the iteration
  unfoldable pub each_entry : {V : Type 0} → (String → V → Call F) → Map V → List (Call F)
  each_entry f [] = []
  each_entry f ((k, v) ∷ m) = f k v ∷ each_entry f m

module _ {F : Type 0} ⦃fl : Float64 F⦄ where
  unfoldable pub system_calls : Device → SystemData F → List (Call F)
  system_calls d sys =
      set_device_info d.name d.host sys.model sys.version sys.serial
      ∷ set_device_uptime d.name d.host sys.uptime
      ∷ []

  unfoldable pub resource_calls : Device → ResourceData F → List (Call F)
  resource_calls d res =
      set_cpu_usage d.name d.host res.cpu_usage
      ∷ set_memory_total d.name d.host res.mem_total
      ∷ set_memory_used d.name d.host res.mem_used
      ∷ set_memory_free d.name d.host res.mem_free
      ∷ []

  unfoldable pub process_calls : Device → ProcessData F → List (Call F)
  process_calls d proc =
      set_process_cpu d.name d.host proc.name proc.cpu
      ∷ set_process_runtime d.name d.host proc.name proc.runtime
      ∷ []

  unfoldable pub interface_calls : Device → InterfaceData F → List (Call F)
  interface_calls d iface =
      set_interface_admin_up d.name d.host iface.name iface.admin_up
      ∷ set_interface_oper_up d.name d.host iface.name iface.oper_up
      ∷ set_interface_rx_bytes d.name d.host iface.name iface.rx_bytes
      ∷ set_interface_tx_bytes d.name d.host iface.name iface.tx_bytes
      ∷ set_interface_rx_errors d.name d.host iface.name iface.rx_errors
      ∷ set_interface_tx_errors d.name d.host iface.name iface.tx_errors
      ∷ set_interface_rx_crc_errors d.name d.host iface.name iface.rx_crc_errors
      ∷ set_interface_rx_frame_errors d.name d.host iface.name iface.rx_frame
      ∷ set_interface_rx_runts d.name d.host iface.name iface.rx_runts
      ∷ set_interface_rx_giants d.name d.host iface.name iface.rx_giants
      ∷ set_interface_rx_drops d.name d.host iface.name iface.rx_drops
      ∷ set_interface_tx_drops d.name d.host iface.name iface.tx_drops
      ∷ set_interface_rx_discards d.name d.host iface.name iface.rx_discards
      ∷ set_interface_tx_discards d.name d.host iface.name iface.tx_discards
      ∷ set_interface_resets d.name d.host iface.name iface.resets
      ∷ set_interface_speed d.name d.host iface.name iface.speed
      ∷ set_interface_mtu d.name d.host iface.name iface.mtu
      ∷ []

  unfoldable pub optic_calls : Device → String × OpticData F → List (Call F)
  optic_calls d (iface, optic) =
      set_optic_rx_power d.name d.host iface optic.rx_power
      ∷ set_optic_tx_power d.name d.host iface optic.tx_power
      ∷ set_optic_temperature d.name d.host iface optic.temp
      ∷ set_optic_voltage d.name d.host iface optic.voltage
      ∷ set_optic_bias_current d.name d.host iface optic.bias_current
      ∷ []

  unfoldable pub cli_version_calls : Device → CliVersion F → List (Call F)
  cli_version_calls d ver_data =
      set_device_info d.name d.host ver_data.model ver_data.version ver_data.serial
      ∷ set_device_uptime d.name d.host ver_data.uptime
      ∷ []

  unfoldable pub cli_interface_calls : Device → CliInterface F → List (Call F)
  cli_interface_calls d iface =
      set_interface_admin_up d.name d.host iface.name iface.admin_up
      ∷ set_interface_oper_up d.name d.host iface.name iface.oper_up
      ∷ set_interface_rx_bytes d.name d.host iface.name iface.rx_bytes
      ∷ set_interface_tx_bytes d.name d.host iface.name iface.tx_bytes
      ∷ set_interface_rx_errors d.name d.host iface.name iface.rx_errors
      ∷ set_interface_tx_errors d.name d.host iface.name iface.tx_errors
      ∷ set_interface_rx_crc_errors d.name d.host iface.name iface.rx_crc
      ∷ set_interface_rx_runts d.name d.host iface.name iface.rx_runts
      ∷ set_interface_rx_giants d.name d.host iface.name iface.rx_giants
      ∷ set_interface_rx_drops d.name d.host iface.name iface.rx_drops
      ∷ set_interface_tx_drops d.name d.host iface.name iface.tx_drops
      ∷ set_interface_rx_discards d.name d.host iface.name iface.rx_discards
      ∷ set_interface_tx_discards d.name d.host iface.name iface.tx_discards
      ∷ set_interface_resets d.name d.host iface.name iface.resets
      ∷ set_interface_speed d.name d.host iface.name iface.speed
      ∷ set_interface_mtu d.name d.host iface.name iface.mtu
      ∷ []

  unfoldable pub basic_resource_calls : Device → BasicResources F → List (Call F)
  basic_resource_calls d res =
      set_cpu_usage d.name d.host res.cpu_usage
      ∷ set_memory_total d.name d.host res.mem_total
      ∷ set_memory_used d.name d.host res.mem_used
      ∷ set_memory_free d.name d.host res.mem_free
      ∷ []

  unfoldable pub basic_interface_calls : Device → BasicInterface F → List (Call F)
  basic_interface_calls d iface =
      set_interface_admin_up d.name d.host iface.name iface.admin_up
      ∷ set_interface_oper_up d.name d.host iface.name iface.oper_up
      ∷ set_interface_rx_bytes d.name d.host iface.name iface.rx_bytes
      ∷ set_interface_tx_bytes d.name d.host iface.name iface.tx_bytes
      ∷ set_interface_rx_errors d.name d.host iface.name iface.rx_errors
      ∷ set_interface_tx_errors d.name d.host iface.name iface.tx_errors
      ∷ []
