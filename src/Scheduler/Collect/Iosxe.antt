-- ===== src/Scheduler/Collect/Iosxe.antt =====
-- `collectSSHIOSXE`
use gcisco_exporter.Base.{List, [], ◌∷◌, ◌++◌, insert, flat_map}
use gcisco_exporter.Float.{Float64}
use gcisco_exporter.Config.{MetricSelection, Device, Credential}
use gcisco_exporter.Metrics.{Call}
use gcisco_exporter.Metrics.Setters.Device.{set_cpu_usage}
use gcisco_exporter.Metrics.Setters.Health.{
  set_temperature, set_fan_status, set_power_supply_status, set_ntp_synced, set_flash_utilization,
}
use gcisco_exporter.Metrics.Setters.Switching.{
  set_stp_blocked_ports, set_mac_table_count, set_vlan_count, set_vlan_active_count,
  set_arp_table_count, set_routing_table_utilization,
}
use gcisco_exporter.Provider.Cli.{CliVersion, IosxeEnvironment, IosxeMacData, IosxeInventory}
use gcisco_exporter.Scheduler.World.{
  Results, cli_version, cli_cpu, cli_interfaces, iosxe_vlans, text, Env, M, ◌>>=◌, ◌>>◌, pure,
  emit_all, when,
}
use gcisco_exporter.Scheduler.Collect.Calls.{cli_version_calls, cli_interface_calls, each_entry}
use gcisco_exporter.Scheduler.Collect.Shell.{output_of, override, run, report, if_replied}

module _ {F : Type 0} ⦃fl : Float64 F⦄ where
  unfoldable pub iosxe_environment_calls : Device → IosxeEnvironment F → List (Call F)
  iosxe_environment_calls d e =
      each_entry (set_fan_status d.name d.host) e.fan_status
      ++ (each_entry (set_power_supply_status d.name d.host) e.power_supply
          ++ each_entry (set_temperature d.name d.host) e.temperature)

  unfoldable pub iosxe_vlan_calls : Device → IosxeMacData F → List (Call F)
  iosxe_vlan_calls d v =
      set_vlan_count d.name d.host (fl.of_nat v.vlan_count)
      ∷ set_vlan_active_count d.name d.host (fl.of_nat v.active_vlan)
      ∷ []

-- The inventory's model and serial number take the place of those of `show version`.
unfoldable pub with_inventory : {F : Type 0} → IosxeInventory → CliVersion F → CliVersion F
with_inventory inv v = record v {
  model = override inv.model v.model;
  serial = override inv.serial v.serial;
}

module _ {F : Type 0} ⦃fl : Float64 F⦄ (env : Env F) (d : Device) (cred : Credential) where
  unfoldable pub iosxe_hardware : Results F → M F (Results F)
  iosxe_hardware result = do
    ver ← run env d cred "show version"
    inv ← run env d cred "show inventory"
    let ver_data =
        with_inventory (env.iosxe.parse_inventory (output_of inv))
          (env.iosxe.parse_version (output_of ver))
    emit_all (cli_version_calls d ver_data)
    cpu_out ← run env d cred "show processes cpu"
    result ← if_replied cpu_out (insert "system" (cli_version ver_data) result) λ out. do
      let cpu = env.iosxe.parse_cpu out
      emit_all (set_cpu_usage d.name d.host cpu.five_sec ∷ [])
      pure (insert "cpu" (cli_cpu cpu) (insert "system" (cli_version ver_data) result))
    env_out ← run env d cred "show environment all"
    report env_out (λ out. iosxe_environment_calls d (env.iosxe.parse_environment out))
    pure (insert "environment" (text (output_of env_out)) result)

  unfoldable pub iosxe_interfaces : Results F → M F (Results F)
  iosxe_interfaces result = do
    iface_out ← run env d cred "show interface"
    if_replied iface_out result λ out. do
      let ifaces = env.iosxe.parse_interfaces out
      emit_all (flat_map (cli_interface_calls d) ifaces)
      pure (insert "interfaces" (cli_interfaces ifaces) result)

  unfoldable pub iosxe_layer2 : Results F → M F (Results F)
  iosxe_layer2 result = do
    stp_out ← run env d cred "show spanning-tree summary"
    report stp_out (λ out.
        each_entry (set_stp_blocked_ports d.name d.host) (env.iosxe.parse_stp out).blocked_ports)
    vlan_out ← run env d cred "show vlan brief"
    result ← if_replied vlan_out result λ out. do
      let v = env.iosxe.parse_vlans out
      emit_all (iosxe_vlan_calls d v)
      pure (insert "vlans" (iosxe_vlans v) result)
    mac_out ← run env d cred "show mac address-table count"
    emit_all
        (set_mac_table_count d.name d.host (env.iosxe.parse_mac_count (output_of mac_out)) ∷ [])
    pure result

  unfoldable pub iosxe_layer3 : Results F → M F (Results F)
  iosxe_layer3 result = do
    arp_out ← run env d cred "show ip arp summary"
    report arp_out
        (λ out. set_arp_table_count d.name d.host (env.iosxe.parse_arp out).arp_count ∷ [])
    route_out ← run env d cred "show ip route summary"
    report route_out (λ out.
        set_routing_table_utilization d.name d.host (env.iosxe.parse_route_summary out).route_count
        ∷ [])
    pure result

  unfoldable pub iosxe_maintenance : Results F → M F (Results F)
  iosxe_maintenance result = do
    ntp_out ← run env d cred "show ntp status"
    report ntp_out (λ out. set_ntp_synced d.name d.host (env.iosxe.parse_ntp out) ∷ [])
    fs_out ← run env d cred "show file systems"
    report fs_out (λ out. set_flash_utilization d.name d.host (env.iosxe.parse_flash out) ∷ [])
    pure result

  unfoldable pub collect_ssh_iosxe : MetricSelection → M F (Results F)
  collect_ssh_iosxe ms = do
    result ← when ms.hardware_health [] (iosxe_hardware [])
    result ← when ms.interfaces result (iosxe_interfaces result)
    result ← when ms.layer2_stability result (iosxe_layer2 result)
    result ← when ms.layer3_tables result (iosxe_layer3 result)
    when ms.system_maintenance result (iosxe_maintenance result)
