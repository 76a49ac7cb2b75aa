-- ===== src/Scheduler/Collect/Nxos.antt =====
-- `collectSSHNXOS`
use gcisco_exporter.Base.{List, [], ◌∷◌, ◌++◌, insert, flat_map}
use gcisco_exporter.Float.{Float64}
use gcisco_exporter.Config.{MetricSelection, Device, Credential}
use gcisco_exporter.Metrics.{Call}
use gcisco_exporter.Metrics.Setters.Device.{set_cpu_usage}
use gcisco_exporter.Metrics.Setters.Health.{
  set_temperature, set_fan_status, set_power_supply_status, set_power_redundancy_status,
  set_ntp_synced, set_flash_utilization,
}
use gcisco_exporter.Metrics.Setters.Switching.{
  set_stp_blocked_ports, set_vlan_count, set_vlan_active_count, set_arp_table_count,
  set_routing_table_utilization,
}
use gcisco_exporter.Provider.Cli.{CliVersion, NxosEnvironment, NxosMacData, NxosInventory}
use gcisco_exporter.Scheduler.World.{
  Results, cli_version, cli_cpu, cli_interfaces, nxos_vlans, text, Env, M, ◌>>=◌, ◌>>◌, pure,
  checked, emit_all, when,
}
use gcisco_exporter.Scheduler.Collect.Calls.{cli_version_calls, cli_interface_calls, each_entry}
use gcisco_exporter.Scheduler.Collect.Shell.{output_of, override, run, report, if_replied}

module _ {F : Type 0} ⦃fl : Float64 F⦄ where
  unfoldable pub nxos_environment_calls : Device → NxosEnvironment F → List (Call F)
  nxos_environment_calls d e =
      each_entry (set_fan_status d.name d.host) e.fan_status
      ++ (each_entry (set_power_supply_status d.name d.host) e.power_supply
          ++ (set_power_redundancy_status d.name d.host e.power_redund
              ∷ each_entry (set_temperature d.name d.host) e.temperature))

  unfoldable pub nxos_vlan_calls : Device → NxosMacData F → List (Call F)
  nxos_vlan_calls d v =
      set_vlan_count d.name d.host v.vlan_count
      ∷ set_vlan_active_count d.name d.host v.active_vlan
      ∷ []

-- The inventory's chassis and serial number take the place of those of `show version`.
unfoldable pub with_inventory : {F : Type 0} → NxosInventory → CliVersion F → CliVersion F
with_inventory inv v = record v {
  model = override inv.chassis v.model;
  serial = override inv.serial v.serial;
}

module _ {F : Type 0} ⦃fl : Float64 F⦄ (env : Env F) (d : Device) (cred : Credential) where
  unfoldable pub nxos_hardware : Results F → M F (Results F)
  nxos_hardware result = do
    ver ← run env d cred "show version"
    inv ← run env d cred "show inventory"
    let ver_data =
        with_inventory (env.nxos.parse_inventory (output_of inv))
          (env.nxos.parse_version (output_of ver))
    emit_all (cli_version_calls d ver_data)
    cpu_out ← run env d cred "show processes cpu"
    result ← if_replied cpu_out (insert "system" (cli_version ver_data) result) λ out. do
      let cpu = env.nxos.parse_cpu out
      emit_all (set_cpu_usage d.name d.host cpu.five_sec ∷ [])
      pure (insert "cpu" (cli_cpu cpu) (insert "system" (cli_version ver_data) result))
    env_out ← run env d cred "show environment"
    report env_out (λ out. nxos_environment_calls d (env.nxos.parse_environment out))
    pure (insert "environment" (text (output_of env_out)) result)

  unfoldable pub nxos_interfaces : Results F → M F (Results F)
  nxos_interfaces result = do
    iface_out ← run env d cred "show interface"
    if_replied iface_out result λ out. do
      ifaces ← checked (env.nxos.parse_interfaces out)
      emit_all (flat_map (cli_interface_calls d) ifaces)
      pure (insert "interfaces" (cli_interfaces ifaces) result)

  unfoldable pub nxos_layer2 : Results F → M F (Results F)
  nxos_layer2 result = do
    stp_out ← run env d cred "show spanning-tree summary"
    report stp_out (λ out.
        each_entry (set_stp_blocked_ports d.name d.host) (env.nxos.parse_stp out).blocked_ports)
    vlan_out ← run env d cred "show vlan brief"
    if_replied vlan_out result λ out. do
      let v = env.nxos.parse_vlans out
      emit_all (nxos_vlan_calls d v)
      pure (insert "vlans" (nxos_vlans v) result)

  unfoldable pub nxos_layer3 : Results F → M F (Results F)
  nxos_layer3 result = do
    arp_out ← run env d cred "show ip arp"
    report arp_out
        (λ out. set_arp_table_count d.name d.host (env.nxos.parse_arp out).arp_count ∷ [])
    route_out ← run env d cred "show ip route summary"
    report route_out (λ out.
        set_routing_table_utilization d.name d.host (env.nxos.parse_route_summary out).route_count
        ∷ [])
    pure result

  unfoldable pub nxos_maintenance : Results F → M F (Results F)
  nxos_maintenance result = do
    ntp_out ← run env d cred "show ntp status"
    report ntp_out (λ out. set_ntp_synced d.name d.host (env.nxos.parse_ntp out) ∷ [])
    flash_out ← run env d cred "show version"
    emit_all (set_flash_utilization d.name d.host (env.nxos.parse_flash (output_of flash_out)) ∷ [])
    pure result

  unfoldable pub collect_ssh_nxos : MetricSelection → M F (Results F)
  collect_ssh_nxos ms = do
    result ← when ms.hardware_health [] (nxos_hardware [])
    result ← when ms.interfaces result (nxos_interfaces result)
    result ← when ms.layer2_stability result (nxos_layer2 result)
    result ← when ms.layer3_tables result (nxos_layer3 result)
    when ms.system_maintenance result (nxos_maintenance result)
