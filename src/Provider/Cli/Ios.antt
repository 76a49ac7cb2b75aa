-- ===== src/Provider/Cli/Ios.antt =====
-- internal/provider/ssh/parser_ios_classic.go: the parsers of IOS, as the scheduler calls them.
pub mod Patterns
pub mod System
pub mod Tables
pub mod Interfaces
pub mod States
use gcisco_exporter.Float.{Float64}
use gcisco_exporter.Provider.Cli.{IosParsers}
use gcisco_exporter.Provider.Cli.Ios.System.{
  parse_version, parse_cpu, parse_ntp_status, parse_flash_utilization,
}
use gcisco_exporter.Provider.Cli.Ios.Tables.{
  parse_stp, parse_vlans, parse_mac_count, parse_arp_table, parse_routing_table,
}
use gcisco_exporter.Provider.Cli.Ios.Interfaces.{parse_ios_interfaces}

unfoldable pub ios_parsers : {F : Type 0} → ⦃fl : Float64 F⦄ → IosParsers F
ios_parsers = record {
  parse_version = parse_version;
  parse_cpu = parse_cpu;
  parse_interfaces = parse_ios_interfaces;
  parse_stp = parse_stp;
  parse_vlans = parse_vlans;
  parse_mac_count = parse_mac_count;
  parse_arp_table = parse_arp_table;
  parse_routing_table = parse_routing_table;
  parse_ntp_status = parse_ntp_status;
  parse_flash_utilization = parse_flash_utilization;
}
