-- ===== src/Provider/Cli.antt =====
-- internal/provider/ssh: what the parsers of command output return, and the parsers of each platform
-- as the scheduler calls them. A parser that can index past the groups of a match, which panics, has
-- an `Option`.
pub mod Lines
pub mod States
pub mod Patterns
pub mod Nxos
pub mod Iosxe
pub mod Ios
use gcisco_exporter.Base.{ℕ, String, Bool, Option, List, Map}

module _ (F : Type 0) where
  -- `NXOSVersion`, `IOSXEVersion` and `IOSVersion`
  pub record CliVersion : Type 0 where
    pub hostname : String
    pub version : String
    pub model : String
    pub uptime : F
    pub serial : String

  -- `NXOSCPU`, `IOSXECPU` and `IOSCPU`
  pub record CliCpu : Type 0 where
    pub five_sec : F
    pub one_min : F
    pub five_min : F

  -- `NXOSInterface`, `IOSXEInterface` and `IOSInterface`
  pub record CliInterface : Type 0 where
    pub name : String
    pub admin_up : Bool
    pub oper_up : Bool
    pub speed : F
    pub mtu : F
    pub rx_bytes : F
    pub tx_bytes : F
    pub rx_errors : F
    pub tx_errors : F
    pub rx_crc : F
    pub rx_runts : F
    pub rx_giants : F
    pub rx_drops : F
    pub tx_drops : F
    pub rx_discards : F
    pub tx_discards : F
    pub resets : F

  pub record NxosEnvironment : Type 0 where
    pub fan_status : Map Bool
    pub power_supply : Map Bool
    pub power_redund : Bool
    pub temperature : Map F

  pub record IosxeEnvironment : Type 0 where
    pub fan_status : Map Bool
    pub power_supply : Map Bool
    pub temperature : Map F

  -- `NXOSSTPData`, `IOSXESTPData` and `IOSSTPData`
  pub record CliStp : Type 0 where
    pub blocked_ports : Map F
    pub topo_changes : Map F

  pub record NxosMacData : Type 0 where
    pub table_count : F
    pub vlan_count : F
    pub active_vlan : F

  pub record NxosL3Data : Type 0 where
    pub arp_count : F
    pub route_count : F
    pub fib_count : F
    pub adj_count : F

  pub record IosxeMacData : Type 0 where
    pub table_count : F
    pub vlan_count : ℕ
    pub active_vlan : ℕ

  pub record IosxeL3Data : Type 0 where
    pub arp_count : F
    pub route_count : F
    pub fib_count : F

pub record NxosInventory : Type 0 where
  pub chassis : String
  pub serial : String

pub record IosxeInventory : Type 0 where
  pub model : String
  pub serial : String

pub record IosVlanData : Type 0 where
  pub vlan_count : ℕ
  pub active_vlan : ℕ

module _ (F : Type 0) where
  pub record NxosParsers : Type 0 where
    pub parse_version : String → CliVersion F
    pub parse_inventory : String → NxosInventory
    pub parse_cpu : String → CliCpu F
    pub parse_environment : String → NxosEnvironment F
    pub parse_interfaces : String → Option (List (CliInterface F))
    pub parse_stp : String → CliStp F
    pub parse_vlans : String → NxosMacData F
    pub parse_arp : String → NxosL3Data F
    pub parse_route_summary : String → NxosL3Data F
    pub parse_ntp : String → Bool
    pub parse_flash : String → F

  pub record IosxeParsers : Type 0 where
    pub parse_version : String → CliVersion F
    pub parse_inventory : String → IosxeInventory
    pub parse_cpu : String → CliCpu F
    pub parse_environment : String → IosxeEnvironment F
    pub parse_interfaces : String → List (CliInterface F)
    pub parse_stp : String → CliStp F
    pub parse_vlans : String → IosxeMacData F
    pub parse_mac_count : String → F
    pub parse_arp : String → IosxeL3Data F
    pub parse_route_summary : String → IosxeL3Data F
    pub parse_ntp : String → Bool
    pub parse_flash : String → F

  pub record IosParsers : Type 0 where
    pub parse_version : String → CliVersion F
    pub parse_cpu : String → CliCpu F
    pub parse_interfaces : String → List (CliInterface F)
    pub parse_stp : String → CliStp F
    pub parse_vlans : String → IosVlanData
    pub parse_mac_count : String → F
    pub parse_arp_table : String → F
    pub parse_routing_table : String → F
    pub parse_ntp_status : String → Bool
    pub parse_flash_utilization : String → F
