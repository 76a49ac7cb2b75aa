-- ===== src/Scheduler/Collect/Json/Tables.antt =====
-- `collectJSON`: layer 2, port-channels, layer 3, maintenance and capacity.
use gcisco_exporter.Base.{String, Bool, List, [], ◌∷◌, ◌++◌, insert, flat_map, Map}
use gcisco_exporter.Float.{Float64}
use gcisco_exporter.Config.{Device}
use gcisco_exporter.Metrics.{Call}
use gcisco_exporter.Metrics.Setters.Switching.{
  set_stp_root_changes, set_stp_topology_changes, set_stp_blocked_ports, set_mac_table_count,
  set_mac_table_utilization, set_mac_moves, set_vlan_count, set_vlan_active_count,
  set_port_channel_status, set_port_channel_member_status, set_port_channel_suspended_members,
  set_arp_table_count, set_arp_table_utilization, set_routing_table_utilization,
  set_fib_utilization, set_adjacency_table_utilization,
}
use gcisco_exporter.Metrics.Setters.Health.{
  set_ntp_synced, set_flash_utilization, set_port_utilization_ratio, set_transceiver_count,
  set_buffer_utilization,
}
use gcisco_exporter.Provider.Json.{
  StpData, MacData, VlanData, PortChannelData, L3TableData, SystemData2, CapacityData,
}
use gcisco_exporter.Scheduler.World.{
  Results, stp, mac, vlans, port_channels, l3_tables, sys_info, capacity, Env, M, ◌>>=◌, ◌>>◌, pure,
  consult, emit_all, on_success,
}
use gcisco_exporter.Scheduler.Collect.Calls.{each_entry}

module _ {F : Type 0} ⦃fl : Float64 F⦄ where
  unfoldable pub stp_calls : Device → StpData F → List (Call F)
  stp_calls d tree =
      each_entry (set_stp_root_changes d.name d.host) tree.root_changes
      ++ (each_entry (set_stp_topology_changes d.name d.host) tree.topo_changes
          ++ each_entry (set_stp_blocked_ports d.name d.host) tree.blocked_ports)

  unfoldable pub mac_calls : Device → MacData F → List (Call F)
  mac_calls d table =
      set_mac_table_count d.name d.host table.table_count
      ∷ set_mac_table_utilization d.name d.host table.table_utilization
      ∷ each_entry (set_mac_moves d.name d.host) table.moves

  unfoldable pub vlan_calls : Device → VlanData → List (Call F)
  vlan_calls d v =
      set_vlan_count d.name d.host (fl.of_nat v.count)
      ∷ set_vlan_active_count d.name d.host (fl.of_nat v.active)
      ∷ []

  unfoldable pub member_calls : Device → String × Map Bool → List (Call F)
  member_calls d (pc, members) =
      each_entry (set_port_channel_member_status d.name d.host pc) members

  unfoldable pub port_channel_calls : Device → PortChannelData F → List (Call F)
  unfolding member_calls
  port_channel_calls d pcs =
      each_entry (set_port_channel_status d.name d.host) pcs.status
      ++ (flat_map (member_calls d) pcs.member_status
          ++ each_entry (set_port_channel_suspended_members d.name d.host) pcs.suspended_members)

  unfoldable pub l3_calls : Device → L3TableData F → List (Call F)
  l3_calls d l3 =
      set_arp_table_count d.name d.host l3.arp_count
      ∷ set_arp_table_utilization d.name d.host l3.arp_utilization
      ∷ set_routing_table_utilization d.name d.host l3.routing_utilization
      ∷ set_fib_utilization d.name d.host l3.fib_utilization
      ∷ set_adjacency_table_utilization d.name d.host l3.adjacency_utilization
      ∷ []

  unfoldable pub sys_info_calls : Device → SystemData2 F → List (Call F)
  sys_info_calls d info =
      set_ntp_synced d.name d.host info.ntp_synced
      ∷ set_flash_utilization d.name d.host info.flash_util
      ∷ []

  unfoldable pub capacity_calls : Device → CapacityData F → List (Call F)
  capacity_calls d c =
      set_port_utilization_ratio d.name d.host c.port_utilization_ratio
      ∷ set_transceiver_count d.name d.host (fl.of_nat c.transceiver_count)
      ∷ each_entry (set_buffer_utilization d.name d.host) c.buffer_utilization

module _ {F : Type 0} ⦃fl : Float64 F⦄ (env : Env F) (d : Device) where
  unfoldable pub json_layer2 : Results F → M F (Results F)
  json_layer2 result = do
    (tree, err) ← consult (λ t. env.json.collect_stp t d)
    emit_all (on_success err (stp_calls d tree))
    (table, err) ← consult (λ t. env.json.collect_mac t d)
    emit_all (on_success err (mac_calls d table))
    (vs, err) ← consult (λ t. env.json.collect_vlans t d)
    emit_all (on_success err (vlan_calls d vs))
    pure (insert "vlans" (vlans vs) (insert "mac" (mac table) (insert "stp" (stp tree) result)))

  unfoldable pub json_ether_channel : Results F → M F (Results F)
  json_ether_channel result = do
    (pcs, err) ← consult (λ t. env.json.collect_port_channels t d)
    emit_all (on_success err (port_channel_calls d pcs))
    pure (insert "portchannels" (port_channels pcs) result)

  unfoldable pub json_layer3 : Results F → M F (Results F)
  json_layer3 result = do
    (l3, err) ← consult (λ t. env.json.collect_l3_tables t d)
    emit_all (on_success err (l3_calls d l3))
    pure (insert "l3tables" (l3_tables l3) result)

  unfoldable pub json_maintenance : Results F → M F (Results F)
  json_maintenance result = do
    (info, err) ← consult (λ t. env.json.collect_system_info t d)
    emit_all (on_success err (sys_info_calls d info))
    pure (insert "sysinfo" (sys_info info) result)

  unfoldable pub json_capacity : Results F → M F (Results F)
  json_capacity result = do
    (c, err) ← consult (λ t. env.json.collect_capacity t d)
    emit_all (on_success err (capacity_calls d c))
    pure (insert "capacity" (capacity c) result)
