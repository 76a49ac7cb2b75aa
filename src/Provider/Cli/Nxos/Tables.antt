-- ===== src/Provider/Cli/Nxos/Tables.antt =====
-- internal/provider/ssh/parser_nxos.go: spanning tree, VLANs, ARP and routes.
use gcisco_exporter.Base.{zero, String, [], insert}
use gcisco_exporter.Strings.{Chars, chars, text_of, trim_commas}
use gcisco_exporter.Regexp.Find.{on1, on2, find_submatch, when1, when3}
use gcisco_exporter.Float.{Float64, value}
use gcisco_exporter.Provider.Cli.{CliStp, NxosMacData, NxosL3Data}
use gcisco_exporter.Provider.Cli.Lines.{each, trimmed_lines}
use gcisco_exporter.Provider.Cli.Patterns.{vlan_active, vlan_listed}
use gcisco_exporter.Provider.Cli.Nxos.Patterns.{tree_line, arp_entries, route_paths}

module _ {F : Type 0} ⦃fl : Float64 F⦄ where
  unfoldable pub nxos_stp_line : CliStp F → Chars → CliStp F
  unfolding on1 on2 find_submatch when3 insert value
  nxos_stp_line stp line = when3 (find_submatch tree_line line) stp (λ vlan second third.
      record stp { blocked_ports = insert (text_of vlan) (value third) stp.blocked_ports })

  unfoldable pub parse_nxos_stp : String → CliStp F
  unfolding each trimmed_lines nxos_stp_line
  parse_nxos_stp output =
      each nxos_stp_line (record { blocked_ports = []; topo_changes = [] })
        (trimmed_lines (chars output))

  unfoldable pub nxos_vlan_line : NxosMacData F → Chars → NxosMacData F
  unfolding on1 on2 find_submatch when1
  nxos_vlan_line data_ line =
      when1 (find_submatch vlan_active line)
        (on1 vlan_listed line
          (λ vlan held. record held { vlan_count = fl.plus held.vlan_count (fl.of_nat 1) }) data_)
        (λ vlan. record data_ {
          vlan_count = fl.plus data_.vlan_count (fl.of_nat 1);
          active_vlan = fl.plus data_.active_vlan (fl.of_nat 1);
        })

  unfoldable pub parse_nxos_vlans : String → NxosMacData F
  unfolding each trimmed_lines nxos_vlan_line
  parse_nxos_vlans output =
      each nxos_vlan_line
        (record {
          table_count = fl.of_nat zero;
          vlan_count = fl.of_nat zero;
          active_vlan = fl.of_nat zero;
        })
        (trimmed_lines (chars output))

  abbrev pub no_nxos_l3 : NxosL3Data F
  no_nxos_l3 = record {
    arp_count = fl.of_nat zero;
    route_count = fl.of_nat zero;
    fib_count = fl.of_nat zero;
    adj_count = fl.of_nat zero;
  }

  unfoldable pub parse_nxos_arp : String → NxosL3Data F
  unfolding on1 on2 each trimmed_lines find_submatch when1 trim_commas value
  parse_nxos_arp output =
      each
        (λ l3 line.
          on1 arp_entries line (λ a held. record held { arp_count = value (trim_commas a) }) l3)
        no_nxos_l3 (trimmed_lines (chars output))

  unfoldable pub parse_nxos_route_summary : String → NxosL3Data F
  unfolding on1 on2 each trimmed_lines find_submatch when1 value
  parse_nxos_route_summary output =
      each (λ l3 line. on1 route_paths line (λ a held. record held { route_count = value a }) l3)
        no_nxos_l3 (trimmed_lines (chars output))
