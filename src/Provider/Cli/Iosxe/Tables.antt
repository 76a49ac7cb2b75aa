-- ===== src/Provider/Cli/Iosxe/Tables.antt =====
-- internal/provider/ssh/parser_iosxe.go: spanning tree, VLANs, MAC addresses, ARP and routes.
use gcisco_exporter.Base.{zero, ◌+◌, String, [], insert}
use gcisco_exporter.Strings.{Chars, chars, text_of}
use gcisco_exporter.Regexp.Find.{on1, on2, find_submatch, when1, when4}
use gcisco_exporter.Float.{Float64, value}
use gcisco_exporter.Provider.Cli.{CliStp, IosxeMacData, IosxeL3Data}
use gcisco_exporter.Provider.Cli.Lines.{each, trimmed_lines}
use gcisco_exporter.Provider.Cli.Patterns.{
  vlan_active, vlan_listed, vlan_tree, mac_total, arp_total, route_total,
}

module _ {F : Type 0} ⦃fl : Float64 F⦄ where
  unfoldable pub parse_iosxe_stp : String → CliStp F
  unfolding on1 on2 each trimmed_lines find_submatch when4 insert value
  parse_iosxe_stp output =
      each
        (λ stp line. when4 (find_submatch vlan_tree line) stp (λ vlan second third fourth.
          record stp { blocked_ports = insert (text_of vlan) (value fourth) stp.blocked_ports }))
        (record { blocked_ports = []; topo_changes = [] }) (trimmed_lines (chars output))

  unfoldable pub iosxe_vlan_line : IosxeMacData F → Chars → IosxeMacData F
  unfolding on1 on2 find_submatch when1
  iosxe_vlan_line macs line =
      when1 (find_submatch vlan_active line)
        (on1 vlan_listed line (λ vlan held. record held { vlan_count = held.vlan_count + 1 }) macs)
        (λ vlan. record macs {
          vlan_count = macs.vlan_count + 1;
          active_vlan = macs.active_vlan + 1;
        })

  unfoldable pub parse_iosxe_vlans : String → IosxeMacData F
  unfolding each trimmed_lines iosxe_vlan_line
  parse_iosxe_vlans output =
      each iosxe_vlan_line
        (record { table_count = fl.of_nat zero; vlan_count = zero; active_vlan = zero })
        (trimmed_lines (chars output))

  unfoldable pub parse_iosxe_mac_count : String → F
  unfolding on1 on2 find_submatch when1 value
  parse_iosxe_mac_count output =
      when1 (find_submatch mac_total (chars output)) (fl.of_nat zero) (λ a. value a)

  abbrev pub no_iosxe_l3 : IosxeL3Data F
  no_iosxe_l3 = record {
    arp_count = fl.of_nat zero;
    route_count = fl.of_nat zero;
    fib_count = fl.of_nat zero;
  }

  unfoldable pub parse_iosxe_arp : String → IosxeL3Data F
  unfolding on1 on2 each trimmed_lines find_submatch when1 value
  parse_iosxe_arp output =
      each (λ l3 line. on1 arp_total line (λ a held. record held { arp_count = value a }) l3)
        no_iosxe_l3 (trimmed_lines (chars output))

  unfoldable pub parse_iosxe_route_summary : String → IosxeL3Data F
  unfolding on1 on2 each trimmed_lines find_submatch when1 value
  parse_iosxe_route_summary output =
      each (λ l3 line. on1 route_total line (λ a held. record held { route_count = value a }) l3)
        no_iosxe_l3 (trimmed_lines (chars output))
