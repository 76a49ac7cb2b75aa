-- ===== src/Scheduler/Collect/Ios.antt =====
-- `collectSSHIOS`, which returns early when `show version` or `show interface` fails.
use gcisco_exporter.Base.{String, ◌⊎◌, inl, inr, List, [], ◌∷◌, insert, flat_map}
use gcisco_exporter.Float.{Float64}
use gcisco_exporter.Error.{Error}
use gcisco_exporter.Config.{MetricSelection, Device, Credential}
use gcisco_exporter.Metrics.{Call}
use gcisco_exporter.Metrics.Setters.Device.{set_cpu_usage}
use gcisco_exporter.Metrics.Setters.Health.{set_ntp_synced, set_flash_utilization}
use gcisco_exporter.Metrics.Setters.Switching.{
  set_stp_blocked_ports, set_mac_table_count, set_vlan_count, set_vlan_active_count,
  set_arp_table_count, set_routing_table_utilization,
}
use gcisco_exporter.Provider.Cli.{IosVlanData}
use gcisco_exporter.Scheduler.World.{
  Results, cli_version, cli_cpu, cli_interfaces, ios_vlans, text, Env, M, ◌>>=◌, ◌>>◌, pure,
  emit_all, when,
}
use gcisco_exporter.Scheduler.Collect.Calls.{cli_version_calls, cli_interface_calls, each_entry}
use gcisco_exporter.Scheduler.Collect.Shell.{output_of, run, report, if_replied}

-- The results when the function goes on, and when it has returned.
pub data Flow (F : Type 0) : Type 0 where
  go_on stopped : Results F → Flow F

module _ {F : Type 0} where
  unfoldable pub continue : Flow F → (Results F → M F (Results F)) → M F (Results F)
  unfolding pure
  continue (go_on result) k = k result
  continue (stopped result) k = pure result

  -- `if err != nil { return }`
  unfoldable pub or_stop : Error ⊎ String → Results F → (String → M F (Flow F)) → M F (Flow F)
  unfolding pure
  or_stop (inl e) result k = pure (stopped result)
  or_stop (inr out) result k = k out

module _ {F : Type 0} ⦃fl : Float64 F⦄ where
  unfoldable pub ios_vlan_calls : Device → IosVlanData → List (Call F)
  ios_vlan_calls d v =
      set_vlan_count d.name d.host (fl.of_nat v.vlan_count)
      ∷ set_vlan_active_count d.name d.host (fl.of_nat v.active_vlan)
      ∷ []

module _ {F : Type 0} ⦃fl : Float64 F⦄ (env : Env F) (d : Device) (cred : Credential) where
  unfoldable pub ios_hardware : Results F → M F (Flow F)
  ios_hardware result = do
    ver ← run env d cred "show version"
    or_stop ver result λ ver_out. do
      let ver_data = env.ios.parse_version ver_out
      emit_all (cli_version_calls d ver_data)
      cpu_out ← run env d cred "show processes cpu"
      result ← if_replied cpu_out (insert "system" (cli_version ver_data) result) λ out. do
        let cpu = env.ios.parse_cpu out
        emit_all (set_cpu_usage d.name d.host cpu.five_sec ∷ [])
        pure (insert "cpu" (cli_cpu cpu) (insert "system" (cli_version ver_data) result))
      env_out ← run env d cred "show environment"
      pure (go_on (insert "environment_raw" (text (output_of env_out)) result))

  unfoldable pub ios_interfaces : Results F → M F (Flow F)
  ios_interfaces result = do
    iface_out ← run env d cred "show interface"
    or_stop iface_out result λ out. do
      let ifaces = env.ios.parse_interfaces out
      emit_all (flat_map (cli_interface_calls d) ifaces)
      pure (go_on (insert "interfaces" (cli_interfaces ifaces) result))

  unfoldable pub ios_layer2 : Results F → M F (Results F)
  ios_layer2 result = do
    stp_out ← run env d cred "show spanning-tree summary"
    report stp_out (λ out.
        each_entry (set_stp_blocked_ports d.name d.host) (env.ios.parse_stp out).blocked_ports)
    vlan_out ← run env d cred "show vlan brief"
    result ← if_replied vlan_out result λ out. do
      let v = env.ios.parse_vlans out
      emit_all (ios_vlan_calls d v)
      pure (insert "vlans" (ios_vlans v) result)
    mac_out ← run env d cred "show mac address-table count"
    emit_all (set_mac_table_count d.name d.host (env.ios.parse_mac_count (output_of mac_out)) ∷ [])
    pure result

  unfoldable pub ios_layer3 : Results F → M F (Results F)
  ios_layer3 result = do
    arp_out ← run env d cred "show ip arp summary"
    report arp_out (λ out. set_arp_table_count d.name d.host (env.ios.parse_arp_table out) ∷ [])
    route_out ← run env d cred "show ip route summary"
    report route_out
        (λ out. set_routing_table_utilization d.name d.host (env.ios.parse_routing_table out) ∷ [])
    pure result

  unfoldable pub ios_maintenance : Results F → M F (Results F)
  ios_maintenance result = do
    ntp_out ← run env d cred "show ntp status"
    report ntp_out (λ out. set_ntp_synced d.name d.host (env.ios.parse_ntp_status out) ∷ [])
    fs_out ← run env d cred "show file systems"
    report fs_out
        (λ out. set_flash_utilization d.name d.host (env.ios.parse_flash_utilization out) ∷ [])
    pure result

  unfoldable pub ios_tables : MetricSelection → Results F → M F (Results F)
  ios_tables ms result = do
    result ← when ms.layer2_stability result (ios_layer2 result)
    result ← when ms.layer3_tables result (ios_layer3 result)
    when ms.system_maintenance result (ios_maintenance result)

  unfoldable pub collect_ssh_ios : MetricSelection → M F (Results F)
  unfolding ios_tables
  collect_ssh_ios ms = do
    flow ← when ms.hardware_health (go_on []) (ios_hardware [])
    continue flow λ result. do
      flow ← when ms.interfaces (go_on result) (ios_interfaces result)
      continue flow (ios_tables ms)
