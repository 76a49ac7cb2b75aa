-- ===== src/Provider/Cli/Iosxe.antt =====
-- internal/provider/ssh/parser_iosxe.go: the parsers of IOS-XE, as the scheduler calls them.
pub mod Patterns
pub mod System
pub mod Tables
pub mod Interfaces
pub mod States
use gcisco_exporter.Float.{Float64}
use gcisco_exporter.Provider.Cli.{IosxeParsers}
use gcisco_exporter.Provider.Cli.Iosxe.System.{
  parse_iosxe_version, parse_iosxe_inventory, parse_iosxe_cpu, parse_iosxe_environment,
  parse_iosxe_ntp, parse_iosxe_flash,
}
use gcisco_exporter.Provider.Cli.Iosxe.Tables.{
  parse_iosxe_stp, parse_iosxe_vlans, parse_iosxe_mac_count, parse_iosxe_arp,
  parse_iosxe_route_summary,
}
use gcisco_exporter.Provider.Cli.Iosxe.Interfaces.{parse_iosxe_interfaces}

unfoldable pub iosxe_parsers : {F : Type 0} → ⦃fl : Float64 F⦄ → IosxeParsers F
iosxe_parsers = record {
  parse_version = parse_iosxe_version;
  parse_inventory = parse_iosxe_inventory;
  parse_cpu = parse_iosxe_cpu;
  parse_environment = parse_iosxe_environment;
  parse_interfaces = parse_iosxe_interfaces;
  parse_stp = parse_iosxe_stp;
  parse_vlans = parse_iosxe_vlans;
  parse_mac_count = parse_iosxe_mac_count;
  parse_arp = parse_iosxe_arp;
  parse_route_summary = parse_iosxe_route_summary;
  parse_ntp = parse_iosxe_ntp;
  parse_flash = parse_iosxe_flash;
}
