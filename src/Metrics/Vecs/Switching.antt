-- ===== src/Metrics/Vecs/Switching.antt =====
-- internal/metrics/metrics.go: `NewCollector`, the vectors of layer 2, port-channels and layer 3.
use gcisco_exporter.Base.{[], ◌∷◌}
use gcisco_exporter.Metrics.{
  stp_root_changes, stp_topo_changes, stp_port_state_changes, stp_blocked_ports, bpdu_guard_events,
  mac_table_utilization, mac_table_count, mac_moves, vlan_count, vlan_active_count, pc_status,
  pc_member_status, pc_suspended_members, pc_utilization, pc_rx_errors, pc_tx_errors,
  arp_table_utilization, arp_table_count, routing_table_util, fib_utilization, adjacency_table_util,
}
use gcisco_exporter.Metrics.Vecs.Options.{Vecs, counter_vec, gauge_vec}

unfoldable pub layer2_vecs : Vecs
layer2_vecs =
    (stp_root_changes, counter_vec "cisco_stp_root_changes_total" ("device" ∷ "host" ∷ "vlan" ∷ []))
    ∷ (
      stp_topo_changes,
      counter_vec "cisco_stp_topology_changes_total" ("device" ∷ "host" ∷ "vlan" ∷ []),
    )
    ∷ (
      stp_port_state_changes,
      counter_vec "cisco_stp_port_state_changes_total"
          ("device" ∷ "host" ∷ "interface" ∷ "vlan" ∷ []),
    )
    ∷ (stp_blocked_ports, gauge_vec "cisco_stp_blocked_ports" ("device" ∷ "host" ∷ "vlan" ∷ []))
    ∷ (
      bpdu_guard_events,
      counter_vec "cisco_bpdu_guard_events_total" ("device" ∷ "host" ∷ "interface" ∷ []),
    )
    ∷ (
      mac_table_utilization,
      gauge_vec "cisco_mac_table_utilization_percent" ("device" ∷ "host" ∷ []),
    )
    ∷ (mac_table_count, gauge_vec "cisco_mac_table_count" ("device" ∷ "host" ∷ []))
    ∷ (mac_moves, counter_vec "cisco_mac_moves_total" ("device" ∷ "host" ∷ "vlan" ∷ []))
    ∷ (vlan_count, gauge_vec "cisco_vlan_count" ("device" ∷ "host" ∷ []))
    ∷ (vlan_active_count, gauge_vec "cisco_vlan_active_count" ("device" ∷ "host" ∷ []))
    ∷ []

unfoldable pub port_channel_vecs : Vecs
port_channel_vecs =
    (pc_status, gauge_vec "cisco_portchannel_status" ("device" ∷ "host" ∷ "portchannel" ∷ []))
    ∷ (
      pc_member_status,
      gauge_vec "cisco_portchannel_member_status"
          ("device" ∷ "host" ∷ "portchannel" ∷ "member" ∷ []),
    )
    ∷ (
      pc_suspended_members,
      gauge_vec "cisco_portchannel_suspended_members" ("device" ∷ "host" ∷ "portchannel" ∷ []),
    )
    ∷ (
      pc_utilization,
      gauge_vec "cisco_portchannel_utilization_percent"
          ("device" ∷ "host" ∷ "portchannel" ∷ "direction" ∷ []),
    )
    ∷ (
      pc_rx_errors,
      counter_vec "cisco_portchannel_rx_errors_total" ("device" ∷ "host" ∷ "portchannel" ∷ []),
    )
    ∷ (
      pc_tx_errors,
      counter_vec "cisco_portchannel_tx_errors_total" ("device" ∷ "host" ∷ "portchannel" ∷ []),
    )
    ∷ []

unfoldable pub layer3_vecs : Vecs
layer3_vecs =
    (
      arp_table_utilization,
      gauge_vec "cisco_arp_table_utilization_percent" ("device" ∷ "host" ∷ []),
    )
    ∷ (arp_table_count, gauge_vec "cisco_arp_table_count" ("device" ∷ "host" ∷ []))
    ∷ (
      routing_table_util,
      gauge_vec "cisco_routing_table_utilization_percent" ("device" ∷ "host" ∷ []),
    )
    ∷ (fib_utilization, gauge_vec "cisco_fib_utilization_percent" ("device" ∷ "host" ∷ []))
    ∷ (
      adjacency_table_util,
      gauge_vec "cisco_adjacency_table_utilization_percent" ("device" ∷ "host" ∷ []),
    )
    ∷ []
