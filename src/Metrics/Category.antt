-- ===== src/Metrics/Category.antt =====
-- The metric categories of metric.example.yaml. Where that names a metric twice, the category is the first;
-- the metrics of processes, which it does not name, are with those of the CPU. `exporter` stands for what is
-- reported in any case: the reachability of the device and the metrics of the exporter itself.
use gcisco_exporter.Metrics.{
  Metric, device_up, device_uptime, device_info, cpu_usage, cpu_5sec, cpu_1min, cpu_5min, mem_total,
  mem_used, mem_free, iface_admin_up, iface_oper_up, iface_rx_bytes, iface_tx_bytes,
  iface_rx_errors, iface_tx_errors, iface_rx_crc_errors, iface_rx_frame, iface_rx_runts,
  iface_rx_giants, iface_rx_drops, iface_tx_drops, iface_rx_discards, iface_tx_discards,
  iface_resets, iface_flaps, iface_speed, iface_mtu, iface_queue_drops, optic_rx_power,
  optic_tx_power, optic_temp, optic_voltage, optic_bias_current, stp_root_changes, stp_topo_changes,
  stp_port_state_changes, stp_blocked_ports, bpdu_guard_events, mac_table_utilization,
  mac_table_count, mac_moves, vlan_count, vlan_active_count, pc_status, pc_member_status,
  pc_suspended_members, pc_utilization, pc_rx_errors, pc_tx_errors, arp_table_utilization,
  arp_table_count, routing_table_util, fib_utilization, adjacency_table_util, temperature,
  fan_status, power_supply, power_redundancy, module_status, stack_member_status, ntp_synced,
  config_changes, reload_events, license_status, flash_utilization, port_utilization_ratio,
  transceiver_count, buffer_utilization, queue_utilization, proc_cpu, proc_runtime,
  collection_method, last_collection, collection_duration, collection_success,
}

pub data Category : Type 0 where
  hardware_health interfaces layer2_stability etherchannel layer3_tables : Category
  system_maintenance capacity_trends exporter : Category

unfoldable pub category : Metric → Category
category device_up = exporter
category device_uptime = system_maintenance
category device_info = hardware_health
category cpu_usage = hardware_health
category cpu_5sec = hardware_health
category cpu_1min = hardware_health
category cpu_5min = hardware_health
category mem_total = hardware_health
category mem_used = hardware_health
category mem_free = hardware_health
category iface_admin_up = interfaces
category iface_oper_up = interfaces
category iface_rx_bytes = interfaces
category iface_tx_bytes = interfaces
category iface_rx_errors = interfaces
category iface_tx_errors = interfaces
category iface_rx_crc_errors = interfaces
category iface_rx_frame = interfaces
category iface_rx_runts = interfaces
category iface_rx_giants = interfaces
category iface_rx_drops = interfaces
category iface_tx_drops = interfaces
category iface_rx_discards = interfaces
category iface_tx_discards = interfaces
category iface_resets = interfaces
category iface_flaps = interfaces
category iface_speed = interfaces
category iface_mtu = interfaces
category iface_queue_drops = interfaces
category optic_rx_power = interfaces
category optic_tx_power = interfaces
category optic_temp = interfaces
category optic_voltage = interfaces
category optic_bias_current = interfaces
category stp_root_changes = layer2_stability
category stp_topo_changes = layer2_stability
category stp_port_state_changes = layer2_stability
category stp_blocked_ports = layer2_stability
category bpdu_guard_events = layer2_stability
category mac_table_utilization = layer2_stability
category mac_table_count = layer2_stability
category mac_moves = layer2_stability
category vlan_count = layer2_stability
category vlan_active_count = layer2_stability
category pc_status = etherchannel
category pc_member_status = etherchannel
category pc_suspended_members = etherchannel
category pc_utilization = etherchannel
category pc_rx_errors = etherchannel
category pc_tx_errors = etherchannel
category arp_table_utilization = layer3_tables
category arp_table_count = layer3_tables
category routing_table_util = layer3_tables
category fib_utilization = layer3_tables
category adjacency_table_util = layer3_tables
category temperature = hardware_health
category fan_status = hardware_health
category power_supply = hardware_health
category power_redundancy = hardware_health
category module_status = hardware_health
category stack_member_status = hardware_health
category ntp_synced = system_maintenance
category config_changes = system_maintenance
category reload_events = system_maintenance
category license_status = system_maintenance
category flash_utilization = system_maintenance
category port_utilization_ratio = capacity_trends
category transceiver_count = capacity_trends
category buffer_utilization = capacity_trends
category queue_utilization = capacity_trends
category proc_cpu = hardware_health
category proc_runtime = hardware_health
category collection_method = exporter
category last_collection = exporter
category collection_duration = exporter
category collection_success = exporter
