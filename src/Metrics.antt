-- ===== src/Metrics.antt =====
-- internal/metrics/metrics.go: the struct `Collector`. A metric is one of its vectors, a call is one
-- `WithLabelValues(…).Set(v)` or `.Add(v)` on a vector. The Prometheus library keeps the numbers and
-- is not modelled here (Metrics/Registry): a setter of the collector returns the call that it makes.
pub mod Vecs
pub mod Setters
pub mod Category
pub mod Names
pub mod Registry
use gcisco_exporter.Base.{ℕ, String, Bool, true, not, ◌&&◌, List, [], ◌∷◌}
use gcisco_exporter.Float.{Float64}

-- The fields of `Collector` that hold a vector.
pub data Metric : Type 0 where
  device_up device_uptime device_info cpu_usage cpu_5sec cpu_1min cpu_5min mem_total : Metric
  mem_used mem_free : Metric
  iface_admin_up iface_oper_up iface_rx_bytes iface_tx_bytes iface_rx_errors : Metric
  iface_tx_errors iface_rx_crc_errors iface_rx_frame iface_rx_runts iface_rx_giants : Metric
  iface_rx_drops iface_tx_drops iface_rx_discards iface_tx_discards iface_resets : Metric
  iface_flaps iface_speed iface_mtu iface_queue_drops : Metric
  optic_rx_power optic_tx_power optic_temp optic_voltage optic_bias_current : Metric
  stp_root_changes stp_topo_changes stp_port_state_changes stp_blocked_ports : Metric
  bpdu_guard_events mac_table_utilization mac_table_count mac_moves vlan_count : Metric
  vlan_active_count : Metric
  pc_status pc_member_status pc_suspended_members pc_utilization pc_rx_errors : Metric
  pc_tx_errors : Metric
  arp_table_utilization arp_table_count routing_table_util fib_utilization : Metric
  adjacency_table_util : Metric
  temperature fan_status power_supply power_redundancy module_status : Metric
  stack_member_status : Metric
  ntp_synced config_changes reload_events license_status flash_utilization : Metric
  port_utilization_ratio transceiver_count buffer_utilization queue_utilization : Metric
  proc_cpu proc_runtime : Metric
  collection_method last_collection collection_duration collection_success : Metric

-- The number of a vector, in the order of `NewCollector`.
pub index : Metric → ℕ
index device_up = 0
index device_uptime = 1
index device_info = 2
index cpu_usage = 3
index cpu_5sec = 4
index cpu_1min = 5
index cpu_5min = 6
index mem_total = 7
index mem_used = 8
index mem_free = 9
index iface_admin_up = 10
index iface_oper_up = 11
index iface_rx_bytes = 12
index iface_tx_bytes = 13
index iface_rx_errors = 14
index iface_tx_errors = 15
index iface_rx_crc_errors = 16
index iface_rx_frame = 17
index iface_rx_runts = 18
index iface_rx_giants = 19
index iface_rx_drops = 20
index iface_tx_drops = 21
index iface_rx_discards = 22
index iface_tx_discards = 23
index iface_resets = 24
index iface_flaps = 25
index iface_speed = 26
index iface_mtu = 27
index iface_queue_drops = 28
index optic_rx_power = 29
index optic_tx_power = 30
index optic_temp = 31
index optic_voltage = 32
index optic_bias_current = 33
index stp_root_changes = 34
index stp_topo_changes = 35
index stp_port_state_changes = 36
index stp_blocked_ports = 37
index bpdu_guard_events = 38
index mac_table_utilization = 39
index mac_table_count = 40
index mac_moves = 41
index vlan_count = 42
index vlan_active_count = 43
index pc_status = 44
index pc_member_status = 45
index pc_suspended_members = 46
index pc_utilization = 47
index pc_rx_errors = 48
index pc_tx_errors = 49
index arp_table_utilization = 50
index arp_table_count = 51
index routing_table_util = 52
index fib_utilization = 53
index adjacency_table_util = 54
index temperature = 55
index fan_status = 56
index power_supply = 57
index power_redundancy = 58
index module_status = 59
index stack_member_status = 60
index ntp_synced = 61
index config_changes = 62
index reload_events = 63
index license_status = 64
index flash_utilization = 65
index port_utilization_ratio = 66
index transceiver_count = 67
index buffer_utilization = 68
index queue_utilization = 69
index proc_cpu = 70
index proc_runtime = 71
index collection_method = 72
index last_collection = 73
index collection_duration = 74
index collection_success = 75

pub data Kind : Type 0 where
  gauge counter : Kind

-- The options of one vector: its kind, the name and the label names.
pub record Desc : Type 0 where
  pub kind : Kind
  pub name : String
  pub label_names : List String

-- `Set` on a gauge, `Add` on a counter.
pub data Op (F : Type 0) : Type 0 where
  set add : F → Op F

pub record Call (F : Type 0) : Type 0 where
  pub metric : Metric
  pub labels : List String
  pub op : Op F

module _ {F : Type 0} ⦃fl : Float64 F⦄ where
  -- `Counter.Add` panics on a number below zero.
  unfoldable pub accepts : Op F → Bool
  accepts (set v) = true
  accepts (add v) = not (fl.less v (fl.of_nat 0))

  unfoldable pub are_accepted : List (Call F) → Bool
  unfolding accepts
  are_accepted [] = true
  are_accepted (c ∷ cs) = accepts c.op && are_accepted cs
