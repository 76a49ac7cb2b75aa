-- ===== src/Provider/Json.antt =====
-- internal/provider/json/json.go: the data that the JSON provider collects. A provider is called at an
-- instant `t : ℕ`, which stands for all that the network does then.
pub mod Value
pub mod Exec
pub mod System
pub mod Switching
pub mod Channels
pub mod Hardware
pub mod Methods
pub mod Shaped
pub mod Calm
pub mod Braces
pub mod Counts
use gcisco_exporter.Base.{ℕ, String, Bool, List, Map}
use gcisco_exporter.Int.{ℤ}
use gcisco_exporter.Error.{Answer}
use gcisco_exporter.Config.{Device}

module _ (F : Type 0) where
  pub record SystemData : Type 0 where
    pub hostname : String
    pub version : String
    pub model : String
    pub serial : String
    pub uptime : F

  pub record InterfaceData : Type 0 where
    pub name : String
    pub admin_up : Bool
    pub oper_up : Bool
    pub rx_bytes : F
    pub tx_bytes : F
    pub rx_errors : F
    pub tx_errors : F
    pub rx_crc_errors : F
    pub rx_frame : F
    pub rx_runts : F
    pub rx_giants : F
    pub rx_drops : F
    pub tx_drops : F
    pub rx_discards : F
    pub tx_discards : F
    pub resets : F
    pub flaps : F
    pub speed : F
    pub mtu : F

  pub record OpticData : Type 0 where
    pub rx_power : F
    pub tx_power : F
    pub temp : F
    pub voltage : F
    pub bias_current : F

  pub record ResourceData : Type 0 where
    pub cpu_usage : F
    pub cpu_5sec : F
    pub cpu_1min : F
    pub cpu_5min : F
    pub mem_total : F
    pub mem_used : F
    pub mem_free : F

  pub record ProcessData : Type 0 where
    pub name : String
    pub cpu : F
    pub runtime : F

  pub record StpData : Type 0 where
    pub root_changes : Map F
    pub topo_changes : Map F
    pub port_state_changes : Map (Map F)
    pub blocked_ports : Map F
    pub bpdu_guard_events : Map F

  pub record MacData : Type 0 where
    pub table_utilization : F
    pub table_count : F
    pub moves : Map F

  pub record PortChannelData : Type 0 where
    pub status : Map Bool
    pub member_status : Map (Map Bool)
    pub suspended_members : Map F
    pub members : Map (List String)

  pub record L3TableData : Type 0 where
    pub arp_utilization : F
    pub arp_count : F
    pub routing_utilization : F
    pub fib_utilization : F
    pub adjacency_utilization : F

  pub record HardwareData : Type 0 where
    pub temperature : Map F
    pub fan_status : Map Bool
    pub power_supply : Map Bool
    pub power_redundant : Bool
    pub module_status : Map Bool
    pub stack_member_status : Map Bool

  pub record SystemData2 : Type 0 where
    pub ntp_synced : Bool
    pub uptime : F
    pub reload_events : F
    pub flash_util : F

  pub record CapacityData : Type 0 where
    pub port_utilization_ratio : F
    pub transceiver_count : ℕ
    pub buffer_utilization : Map F
    pub queue_utilization : Map F

pub record VlanData : Type 0 where
  pub count : ℕ
  pub active : ℕ

-- The methods of the JSON provider that the scheduler calls.
pub record JsonProvider (F : Type 0) : Type 0 where
  pub collect_system : ℕ → Device → Answer (SystemData F)
  pub collect_resources : ℕ → Device → Answer (ResourceData F)
  pub collect_processes : ℕ → Device → ℤ → Answer (List (ProcessData F))
  pub collect_hardware : ℕ → Device → Answer (HardwareData F)
  pub collect_interfaces : ℕ → Device → Answer (List (InterfaceData F))
  pub collect_optics : ℕ → Device → Answer (Map (OpticData F))
  pub collect_stp : ℕ → Device → Answer (StpData F)
  pub collect_mac : ℕ → Device → Answer (MacData F)
  pub collect_vlans : ℕ → Device → Answer VlanData
  pub collect_port_channels : ℕ → Device → Answer (PortChannelData F)
  pub collect_l3_tables : ℕ → Device → Answer (L3TableData F)
  pub collect_system_info : ℕ → Device → Answer (SystemData2 F)
  pub collect_capacity : ℕ → Device → Answer (CapacityData F)
