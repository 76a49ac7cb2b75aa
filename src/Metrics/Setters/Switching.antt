-- ===== src/Metrics/Setters/Switching.antt =====
-- internal/metrics/metrics.go: the setters of the layer2, port-channel, layer3 vectors.
use gcisco_exporter.Base.{String, Bool, [], ◌∷◌, if◌then◌else◌}
use gcisco_exporter.Float.{Float64}
use gcisco_exporter.Metrics.{set, add, Call}
use gcisco_exporter.Metrics.{
  adjacency_table_util, arp_table_count, arp_table_utilization, bpdu_guard_events, fib_utilization,
  mac_moves, mac_table_count, mac_table_utilization, pc_member_status, pc_rx_errors, pc_status,
  pc_suspended_members, pc_tx_errors, pc_utilization, routing_table_util, stp_blocked_ports,
  stp_port_state_changes, stp_root_changes, stp_topo_changes, vlan_active_count, vlan_count,
}

module _ {F : Type 0} ⦃fl : Float64 F⦄ where
  unfoldable pub set_stp_root_changes : String → String → String → F → Call F
  set_stp_root_changes device host vlan count = record {
    metric = stp_root_changes;
    labels = device ∷ host ∷ vlan ∷ [];
    op = add count;
  }

  unfoldable pub set_stp_topology_changes : String → String → String → F → Call F
  set_stp_topology_changes device host vlan count = record {
    metric = stp_topo_changes;
    labels = device ∷ host ∷ vlan ∷ [];
    op = add count;
  }

  unfoldable pub set_stp_port_state_changes : String → String → String → String → F → Call F
  set_stp_port_state_changes device host iface vlan count = record {
    metric = stp_port_state_changes;
    labels = device ∷ host ∷ iface ∷ vlan ∷ [];
    op = add count;
  }

  unfoldable pub set_stp_blocked_ports : String → String → String → F → Call F
  set_stp_blocked_ports device host vlan count = record {
    metric = stp_blocked_ports;
    labels = device ∷ host ∷ vlan ∷ [];
    op = set count;
  }

  unfoldable pub set_bpdu_guard_events : String → String → String → F → Call F
  set_bpdu_guard_events device host iface count = record {
    metric = bpdu_guard_events;
    labels = device ∷ host ∷ iface ∷ [];
    op = add count;
  }

  unfoldable pub set_mac_table_utilization : String → String → F → Call F
  set_mac_table_utilization device host percent = record {
    metric = mac_table_utilization;
    labels = device ∷ host ∷ [];
    op = set percent;
  }

  unfoldable pub set_mac_table_count : String → String → F → Call F
  set_mac_table_count device host count = record {
    metric = mac_table_count;
    labels = device ∷ host ∷ [];
    op = set count;
  }

  unfoldable pub set_mac_moves : String → String → String → F → Call F
  set_mac_moves device host vlan count = record {
    metric = mac_moves;
    labels = device ∷ host ∷ vlan ∷ [];
    op = add count;
  }

  unfoldable pub set_vlan_count : String → String → F → Call F
  set_vlan_count device host count = record {
    metric = vlan_count;
    labels = device ∷ host ∷ [];
    op = set count;
  }

  unfoldable pub set_vlan_active_count : String → String → F → Call F
  set_vlan_active_count device host count = record {
    metric = vlan_active_count;
    labels = device ∷ host ∷ [];
    op = set count;
  }

  unfoldable pub set_port_channel_status : String → String → String → Bool → Call F
  set_port_channel_status device host pc up = record {
    metric = pc_status;
    labels = device ∷ host ∷ pc ∷ [];
    op = set (if up then fl.of_nat 1 else fl.of_nat 0);
  }

  unfoldable pub set_port_channel_member_status : String → String → String → String → Bool → Call F
  set_port_channel_member_status device host pc member active = record {
    metric = pc_member_status;
    labels = device ∷ host ∷ pc ∷ member ∷ [];
    op = set (if active then fl.of_nat 1 else fl.of_nat 0);
  }

  unfoldable pub set_port_channel_suspended_members : String → String → String → F → Call F
  set_port_channel_suspended_members device host pc count = record {
    metric = pc_suspended_members;
    labels = device ∷ host ∷ pc ∷ [];
    op = set count;
  }

  unfoldable pub set_port_channel_utilization : String → String → String → String → F → Call F
  set_port_channel_utilization device host pc direction percent = record {
    metric = pc_utilization;
    labels = device ∷ host ∷ pc ∷ direction ∷ [];
    op = set percent;
  }

  unfoldable pub set_port_channel_rx_errors : String → String → String → F → Call F
  set_port_channel_rx_errors device host pc errors = record {
    metric = pc_rx_errors;
    labels = device ∷ host ∷ pc ∷ [];
    op = add errors;
  }

  unfoldable pub set_port_channel_tx_errors : String → String → String → F → Call F
  set_port_channel_tx_errors device host pc errors = record {
    metric = pc_tx_errors;
    labels = device ∷ host ∷ pc ∷ [];
    op = add errors;
  }

  unfoldable pub set_arp_table_utilization : String → String → F → Call F
  set_arp_table_utilization device host percent = record {
    metric = arp_table_utilization;
    labels = device ∷ host ∷ [];
    op = set percent;
  }

  unfoldable pub set_arp_table_count : String → String → F → Call F
  set_arp_table_count device host count = record {
    metric = arp_table_count;
    labels = device ∷ host ∷ [];
    op = set count;
  }

  unfoldable pub set_routing_table_utilization : String → String → F → Call F
  set_routing_table_utilization device host percent = record {
    metric = routing_table_util;
    labels = device ∷ host ∷ [];
    op = set percent;
  }

  unfoldable pub set_fib_utilization : String → String → F → Call F
  set_fib_utilization device host percent = record {
    metric = fib_utilization;
    labels = device ∷ host ∷ [];
    op = set percent;
  }

  unfoldable pub set_adjacency_table_utilization : String → String → F → Call F
  set_adjacency_table_utilization device host percent = record {
    metric = adjacency_table_util;
    labels = device ∷ host ∷ [];
    op = set percent;
  }
