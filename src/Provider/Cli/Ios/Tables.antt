-- ===== src/Provider/Cli/Ios/Tables.antt =====
-- internal/provider/ssh/parser_ios_classic.go: spanning tree, VLANs, MAC addresses, ARP and routes.
use gcisco_exporter.Base.{zero, ◌+◌, String, List, [], insert, if◌then◌else◌}
use gcisco_exporter.Strings.{Chars, chars, text_of, split_lines, contains}
use gcisco_exporter.Regexp.Find.{on1, on2, find_submatch, when1, when4}
use gcisco_exporter.Float.{Float64, value}
use gcisco_exporter.Provider.Cli.{CliStp, IosVlanData}
use gcisco_exporter.Provider.Cli.Lines.{each, trimmed_lines}
use gcisco_exporter.Provider.Cli.Patterns.{
  vlan_active, vlan_listed, vlan_tree, mac_total, arp_total, route_total,
}
use gcisco_exporter.Provider.Cli.Ios.Patterns.{entries_or_lines, entries_only}

module _ {F : Type 0} ⦃fl : Float64 F⦄ where
  unfoldable pub parse_stp : String → CliStp F
  unfolding on1 on2 each trimmed_lines find_submatch when4 insert value
  parse_stp output =
      each
        (λ stp line. when4 (find_submatch vlan_tree line) stp (λ vlan second third fourth.
          record stp { blocked_ports = insert (text_of vlan) (value fourth) stp.blocked_ports }))
        (record { blocked_ports = []; topo_changes = [] }) (trimmed_lines (chars output))

  unfoldable pub parse_mac_count : String → F
  unfolding on1 on2 find_submatch when1 value
  parse_mac_count output =
      when1 (find_submatch mac_total (chars output))
        (when1 (find_submatch entries_only (chars output)) (fl.of_nat zero) (λ a. value a))
        (λ a. value a)

  -- the lines with `Internet`
  unfoldable pub count_internet : List Chars → F
  unfolding each contains
  count_internet lines =
      each (λ count line. if contains line "Internet" then fl.plus count (fl.of_nat 1) else count)
        (fl.of_nat zero) lines

  unfoldable pub parse_arp_table : String → F
  unfolding on1 on2 find_submatch when1 value count_internet split_lines
  parse_arp_table output =
      when1 (find_submatch arp_total (chars output))
        (when1 (find_submatch entries_or_lines (chars output))
          (count_internet (split_lines (chars output))) (λ a. value a))
        (λ a. value a)

  unfoldable pub parse_routing_table : String → F
  unfolding on1 on2 find_submatch when1 value
  parse_routing_table output =
      when1 (find_submatch route_total (chars output)) (fl.of_nat zero) (λ a. value a)

unfoldable pub vlan_line : IosVlanData → Chars → IosVlanData
unfolding on1 on2 find_submatch when1
vlan_line vlans line =
    when1 (find_submatch vlan_active line)
      (on1 vlan_listed line (λ vlan held. record held { vlan_count = held.vlan_count + 1 }) vlans)
      (λ vlan. record vlans {
        vlan_count = vlans.vlan_count + 1;
        active_vlan = vlans.active_vlan + 1;
      })

unfoldable pub parse_vlans : String → IosVlanData
unfolding each trimmed_lines vlan_line
parse_vlans output =
    each vlan_line (record { vlan_count = zero; active_vlan = zero }) (trimmed_lines (chars output))
