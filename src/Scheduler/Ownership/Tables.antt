-- ===== src/Scheduler/Ownership/Tables.antt =====
-- The calls that report the tables of a device are its own.
use gcisco_exporter.Base.{◌≡◌, refl, String, Bool, true, Map, All, All-append, All-flat_map}
use gcisco_exporter.Float.{Float64}
use gcisco_exporter.Config.{MetricSelection, Device}
use gcisco_exporter.Metrics.Setters.Health.{
  set_buffer_utilization, set_flash_utilization, set_ntp_synced, set_port_utilization_ratio,
  set_transceiver_count,
}
use gcisco_exporter.Metrics.Setters.Switching.{
  set_adjacency_table_utilization, set_arp_table_count, set_arp_table_utilization,
  set_fib_utilization, set_mac_moves, set_mac_table_count, set_mac_table_utilization,
  set_port_channel_member_status, set_port_channel_status, set_port_channel_suspended_members,
  set_routing_table_utilization, set_stp_blocked_ports, set_stp_root_changes,
  set_stp_topology_changes, set_vlan_active_count, set_vlan_count,
}
use gcisco_exporter.Provider.Json.{
  StpData, MacData, VlanData, PortChannelData, L3TableData, SystemData2, CapacityData,
}
use gcisco_exporter.Provider.Cli.{NxosMacData, IosxeMacData, IosVlanData}
use gcisco_exporter.Scheduler.Collect.Calls.{each_entry}
use gcisco_exporter.Scheduler.Collect.Json.Tables.{
  stp_calls, mac_calls, vlan_calls, member_calls, port_channel_calls, l3_calls, sys_info_calls,
  capacity_calls,
}
use gcisco_exporter.Scheduler.Collect.Nxos.{nxos_vlan_calls}
use gcisco_exporter.Scheduler.Collect.Iosxe.{iosxe_vlan_calls}
use gcisco_exporter.Scheduler.Collect.Ios.{ios_vlan_calls}
use gcisco_exporter.Scheduler.Frame.Reports.{All-Steady}
use gcisco_exporter.Scheduler.Ownership.Calls.{All-each_entry}
use gcisco_exporter.Scheduler.Ownership.{
  traits, traits-Owned, traits-Reported, Owned, Reported, All-Reported,
}

module _ (F : Type 0) ⦃fl : Float64 F⦄ (ms : MetricSelection) (d : Device) where
  pub vlan_calls-Reported :
      (x : VlanData) → ms.layer2_stability ≡ true → All (Reported {F = F} ms d) (vlan_calls d x)
  unfolding vlan_calls set_vlan_count set_vlan_active_count traits
  vlan_calls-Reported v h = All-Reported {F = F} ms d ms.layer2_stability (vlan_calls d v) h refl

  pub l3_calls-Reported :
      (x : L3TableData F) → ms.layer3_tables ≡ true → All (Reported {F = F} ms d) (l3_calls d x)
  unfolding l3_calls set_arp_table_count set_arp_table_utilization set_routing_table_utilization
      set_fib_utilization set_adjacency_table_utilization traits
  l3_calls-Reported l3 h = All-Reported {F = F} ms d ms.layer3_tables (l3_calls d l3) h refl

  pub sys_info_calls-Reported :
      (x : SystemData2 F)
      → ms.system_maintenance ≡ true
      → All (Reported {F = F} ms d) (sys_info_calls d x)
  unfolding sys_info_calls set_ntp_synced set_flash_utilization traits
  sys_info_calls-Reported info h =
      All-Reported {F = F} ms d ms.system_maintenance (sys_info_calls d info) h refl

  pub nxos_vlan_calls-Reported :
      (x : NxosMacData F)
      → ms.layer2_stability ≡ true
      → All (Reported {F = F} ms d) (nxos_vlan_calls d x)
  unfolding nxos_vlan_calls set_vlan_count set_vlan_active_count traits
  nxos_vlan_calls-Reported v h =
      All-Reported {F = F} ms d ms.layer2_stability (nxos_vlan_calls d v) h refl

  pub iosxe_vlan_calls-Reported :
      (x : IosxeMacData F)
      → ms.layer2_stability ≡ true
      → All (Reported {F = F} ms d) (iosxe_vlan_calls d x)
  unfolding iosxe_vlan_calls set_vlan_count set_vlan_active_count traits
  iosxe_vlan_calls-Reported v h =
      All-Reported {F = F} ms d ms.layer2_stability (iosxe_vlan_calls d v) h refl

  pub ios_vlan_calls-Reported :
      (x : IosVlanData)
      → ms.layer2_stability ≡ true
      → All (Reported {F = F} ms d) (ios_vlan_calls d x)
  unfolding ios_vlan_calls set_vlan_count set_vlan_active_count traits
  ios_vlan_calls-Reported v h =
      All-Reported {F = F} ms d ms.layer2_stability (ios_vlan_calls d v) h refl

  set_stp_root_changes-Owned :
      (m : Map F)
      → ms.layer2_stability ≡ true
      → All (Owned {F = F} ms d) (each_entry (set_stp_root_changes d.name d.host) m)
  unfolding set_stp_root_changes traits
  set_stp_root_changes-Owned m h =
      All-each_entry (Owned {F = F} ms d) (set_stp_root_changes d.name d.host) m (λ k v.
        traits-Owned {F = F} ms d ms.layer2_stability (set_stp_root_changes d.name d.host k v) h
          refl)

  set_stp_topology_changes-Owned :
      (m : Map F)
      → ms.layer2_stability ≡ true
      → All (Owned {F = F} ms d) (each_entry (set_stp_topology_changes d.name d.host) m)
  unfolding set_stp_topology_changes traits
  set_stp_topology_changes-Owned m h =
      All-each_entry (Owned {F = F} ms d) (set_stp_topology_changes d.name d.host) m (λ k v.
        traits-Owned {F = F} ms d ms.layer2_stability (set_stp_topology_changes d.name d.host k v) h
          refl)

  pub set_stp_blocked_ports-Reported :
      (m : Map F)
      → ms.layer2_stability ≡ true
      → All (Reported {F = F} ms d) (each_entry (set_stp_blocked_ports d.name d.host) m)
  unfolding set_stp_blocked_ports traits
  set_stp_blocked_ports-Reported m h =
      All-each_entry (Reported {F = F} ms d) (set_stp_blocked_ports d.name d.host) m (λ k v.
        traits-Reported {F = F} ms d ms.layer2_stability (set_stp_blocked_ports d.name d.host k v) h
          refl)

  set_mac_moves-Owned :
      (m : Map F)
      → ms.layer2_stability ≡ true
      → All (Owned {F = F} ms d) (each_entry (set_mac_moves d.name d.host) m)
  unfolding set_mac_moves traits
  set_mac_moves-Owned m h =
      All-each_entry (Owned {F = F} ms d) (set_mac_moves d.name d.host) m (λ k v.
        traits-Owned {F = F} ms d ms.layer2_stability (set_mac_moves d.name d.host k v) h refl)

  set_port_channel_status-Reported :
      (m : Map Bool)
      → ms.etherchannel ≡ true
      → All (Reported {F = F} ms d) (each_entry (set_port_channel_status d.name d.host) m)
  unfolding set_port_channel_status traits
  set_port_channel_status-Reported m h =
      All-each_entry (Reported {F = F} ms d) (set_port_channel_status d.name d.host) m (λ k v.
        traits-Reported {F = F} ms d ms.etherchannel (set_port_channel_status d.name d.host k v) h
          refl)

  set_port_channel_suspended_members-Reported :
      (m : Map F)
      → ms.etherchannel ≡ true
      → All
          (Reported {F = F} ms d)
          (each_entry (set_port_channel_suspended_members d.name d.host) m)
  unfolding set_port_channel_suspended_members traits
  set_port_channel_suspended_members-Reported m h =
      All-each_entry (Reported {F = F} ms d) (set_port_channel_suspended_members d.name d.host) m
        (λ k v.
          traits-Reported {F = F} ms d ms.etherchannel
            (set_port_channel_suspended_members d.name d.host k v) h refl)

  set_buffer_utilization-Reported :
      (m : Map F)
      → ms.capacity_trends ≡ true
      → All (Reported {F = F} ms d) (each_entry (set_buffer_utilization d.name d.host) m)
  unfolding set_buffer_utilization traits
  set_buffer_utilization-Reported m h =
      All-each_entry (Reported {F = F} ms d) (set_buffer_utilization d.name d.host) m (λ k v.
        traits-Reported {F = F} ms d ms.capacity_trends (set_buffer_utilization d.name d.host k v) h
          refl)

  member_calls-Reported :
      (pc : String × Map Bool)
      → ms.etherchannel ≡ true
      → All (Reported {F = F} ms d) (member_calls d pc)
  unfolding member_calls set_port_channel_member_status traits
  member_calls-Reported (pc, members) h =
      All-each_entry (Reported {F = F} ms d) (set_port_channel_member_status d.name d.host pc)
        members (λ k v. traits-Reported {F = F} ms d ms.etherchannel _ h refl)

  pub stp_calls-Owned :
      (tree : StpData F) → ms.layer2_stability ≡ true → All (Owned {F = F} ms d) (stp_calls d tree)
  unfolding stp_calls
  stp_calls-Owned tree h =
      All-append (Owned {F = F} ms d) _ _ (set_stp_root_changes-Owned tree.root_changes h) (
        All-append (Owned {F = F} ms d) _ _ (set_stp_topology_changes-Owned tree.topo_changes h)
          (All-Steady (Owned {F = F} ms d) _ (set_stp_blocked_ports-Reported tree.blocked_ports h)))

  pub mac_calls-Owned :
      (table : MacData F)
      → ms.layer2_stability ≡ true
      → All (Owned {F = F} ms d) (mac_calls d table)
  unfolding mac_calls set_mac_table_count set_mac_table_utilization traits
  mac_calls-Owned table h = (
    traits-Owned {F = F} ms d ms.layer2_stability _ h refl,
    (traits-Owned {F = F} ms d ms.layer2_stability _ h refl, set_mac_moves-Owned table.moves h),
  )

  pub port_channel_calls-Reported :
      (pcs : PortChannelData F)
      → ms.etherchannel ≡ true
      → All (Reported {F = F} ms d) (port_channel_calls d pcs)
  unfolding port_channel_calls
  port_channel_calls-Reported pcs h =
      All-append (Reported {F = F} ms d) _ _ (set_port_channel_status-Reported pcs.status h) (
        All-append (Reported {F = F} ms d) _ _
          (All-flat_map (Reported {F = F} ms d) (member_calls d) pcs.member_status
            (λ pc. member_calls-Reported pc h))
          (set_port_channel_suspended_members-Reported pcs.suspended_members h))

  pub capacity_calls-Reported :
      (c : CapacityData F)
      → ms.capacity_trends ≡ true
      → All (Reported {F = F} ms d) (capacity_calls d c)
  unfolding capacity_calls set_port_utilization_ratio set_transceiver_count traits
  capacity_calls-Reported c h = (
    traits-Reported {F = F} ms d ms.capacity_trends _ h refl,
    (
      traits-Reported {F = F} ms d ms.capacity_trends _ h refl,
      set_buffer_utilization-Reported c.buffer_utilization h,
    ),
  )
