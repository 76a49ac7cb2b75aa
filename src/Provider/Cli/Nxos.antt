-- ===== src/Provider/Cli/Nxos.antt =====
-- internal/provider/ssh/parser_nxos.go: the parsers of NX-OS, as the scheduler calls them.
pub mod Patterns
pub mod System
pub mod Tables
pub mod Interfaces
pub mod Errors
pub mod Panics
use gcisco_exporter.Float.{Float64}
use gcisco_exporter.Provider.Cli.{NxosParsers}
use gcisco_exporter.Provider.Cli.Nxos.System.{
  parse_nxos_version, parse_nxos_inventory, parse_nxos_cpu, parse_nxos_environment, parse_nxos_ntp,
  parse_nxos_flash,
}
use gcisco_exporter.Provider.Cli.Nxos.Tables.{
  parse_nxos_stp, parse_nxos_vlans, parse_nxos_arp, parse_nxos_route_summary,
}
use gcisco_exporter.Provider.Cli.Nxos.Interfaces.{parse_nxos_interfaces}

unfoldable pub nxos_parsers : {F : Type 0} → ⦃fl : Float64 F⦄ → NxosParsers F
nxos_parsers = record {
  parse_version = parse_nxos_version;
  parse_inventory = parse_nxos_inventory;
  parse_cpu = parse_nxos_cpu;
  parse_environment = parse_nxos_environment;
  parse_interfaces = parse_nxos_interfaces;
  parse_stp = parse_nxos_stp;
  parse_vlans = parse_nxos_vlans;
  parse_arp = parse_nxos_arp;
  parse_route_summary = parse_nxos_route_summary;
  parse_ntp = parse_nxos_ntp;
  parse_flash = parse_nxos_flash;
}
