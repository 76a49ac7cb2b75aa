-- ===== src/Tests/Parsers.antt =====
-- Runs of the parsers of command output at small outputs.
use gcisco_exporter.Base.{
  ℕ, ◌≡◌, ◌↔◌, refl, String, true, false, some, none, List, [], ◌∷◌, length, All,
}
use gcisco_exporter.Strings.{
  chars, split_lines, onto_first, trim_space, trim_left, trim_end, is_space, before, take,
}
use gcisco_exporter.Text.{same_codes}
use gcisco_exporter.Regexp.{
  is_digit, is_blank, is_solid, is_any, is_word, in_set, not_in_set, or_else, match_word,
  match_many, match_few, match_one, points, word_before, word_after, differ, starts_text,
  starts_line, is_end, match_shape, with_group, match_parts,
}
use gcisco_exporter.Regexp.Find.{
  from_here, search_from, submatch, find_submatch, onto_some, taken, matches_from, remove_from,
  remove_all, when1, when2, on1, on2, in_order,
}
use gcisco_exporter.Float.{whole, value}
use gcisco_exporter.Provider.Cli.{CliInterface}
use gcisco_exporter.Provider.Cli.Lines.{
  ◌>>=◌, each, each_or_panic, trimmed_lines, blocks, blocks_of,
}
use gcisco_exporter.Provider.Cli.Patterns.{ios_header}
use gcisco_exporter.Provider.Cli.States.{IsConsistent}
use gcisco_exporter.Provider.Cli.Nxos.Patterns.{ethernet_header}
use gcisco_exporter.Provider.Cli.Nxos.Interfaces.{
  at, sum_groups, set_buffer, set_input_errors, set_output_errors, set_nxos_bytes, set_nxos_counts,
  nxos_interface_line, nxos_interface, nxos_block, nxos_blocks, parse_nxos_interfaces,
}
use gcisco_exporter.Provider.Cli.Nxos.Errors.{IsAdminUp}
use gcisco_exporter.Provider.Cli.Nxos.Panics.{
  any_block_breaks, parse_nxos_interfaces-panics, parse_nxos_interfaces-IsAdminUp,
}
use gcisco_exporter.Provider.Cli.Iosxe.Interfaces.{parse_iosxe_interfaces}
use gcisco_exporter.Provider.Cli.Iosxe.States.{parse_iosxe_interfaces-IsConsistent}
use gcisco_exporter.Provider.Cli.Ios.Interfaces.{parse_ios_interfaces}
use gcisco_exporter.Provider.Cli.Ios.States.{parse_ios_interfaces-IsConsistent}
use gcisco_exporter.Provider.Cli.Ios.Tables.{parse_vlans, vlan_line}

-- an interface with a line on buffers, which the parser reads past its last group
abbrev buffers : String
buffers = "Ethernet1/1 is up\n  1 [no] buffer 2 runts 3 giants 4 CRC\n"

-- an interface that is administratively down
abbrev shut : String
shut = "Ethernet1/2 is admin down\n  7 interface resets\n"

abbrev shut_interfaces : List (CliInterface ℕ)
shut_interfaces =
    record {
      name = "Ethernet1/2";
      admin_up = true;
      oper_up = false;
      speed = 0;
      mtu = 0;
      rx_bytes = 0;
      tx_bytes = 0;
      rx_errors = 0;
      tx_errors = 0;
      rx_crc = 0;
      rx_runts = 0;
      rx_giants = 0;
      rx_drops = 0;
      tx_drops = 0;
      rx_discards = 0;
      tx_discards = 0;
      resets = 7;
    }
    ∷ []

abbrev two_ports : String
two_ports = "Gi0/1 is administratively down\n  MTU 1500 bytes\nGi0/2 is up\n  BW 100 Mbit\n"

abbrev vlan_table : String
vlan_table = "1    default   act/unsup\n20   guests    susp\n30   voice     active\n"

parsed_shut : parse_nxos_interfaces shut ≡ some shut_interfaces
unfolding parse_nxos_interfaces blocks blocks_of matches_from match_parts match_shape match_word
    match_many match_one match_few points or_else starts_line starts_text is_end word_before
    word_after differ with_group from_here onto_some taken before take nxos_blocks nxos_block
    nxos_interface each_or_panic trimmed_lines split_lines onto_first trim_space trim_left trim_end
    is_space nxos_interface_line set_buffer set_input_errors set_output_errors set_nxos_bytes
    set_nxos_counts in_order on1 on2 when1 when2 find_submatch search_from submatch remove_all
    remove_from value ◌>>=◌ is_digit is_blank is_solid is_any in_set not_in_set is_word at
    sum_groups same_codes
parsed_shut = refl

panicked : parse_nxos_interfaces {F = ℕ} buffers ≡ none
unfolding parse_nxos_interfaces blocks blocks_of matches_from match_parts match_shape match_word
    match_many match_one match_few points or_else starts_line starts_text is_end word_before
    word_after differ with_group from_here onto_some taken before take nxos_blocks nxos_block
    nxos_interface each_or_panic trimmed_lines split_lines onto_first trim_space trim_left trim_end
    is_space nxos_interface_line set_buffer set_input_errors set_output_errors set_nxos_bytes
    set_nxos_counts in_order on1 on2 when1 when2 find_submatch search_from submatch remove_all
    remove_from value ◌>>=◌ is_digit is_blank is_solid is_any in_set not_in_set is_word at
    sum_groups
panicked = refl

-- the third VLAN, whose state is `active`, is not counted
counted_vlans : (parse_vlans vlan_table).vlan_count ≡ 2
unfolding parse_vlans each trimmed_lines split_lines onto_first trim_space trim_left trim_end
    is_space vlan_line find_submatch search_from submatch match_parts match_shape match_word
    match_many match_one points or_else starts_text with_group from_here before take when1 is_digit
    is_blank is_solid
counted_vlans = refl

parse_nxos_interfaces-panics_example :
    (parse_nxos_interfaces {F = ℕ} buffers ≡ none)
    ↔ (any_block_breaks (blocks ethernet_header (chars buffers)) ≡ true)
parse_nxos_interfaces-panics_example = parse_nxos_interfaces-panics {F = ℕ} buffers

parse_nxos_interfaces-IsAdminUp_example :
    (length shut_interfaces ≡ length (blocks ethernet_header (chars shut)))
    × All IsAdminUp shut_interfaces
parse_nxos_interfaces-IsAdminUp_example =
    parse_nxos_interfaces-IsAdminUp shut shut_interfaces parsed_shut

parse_iosxe_interfaces-IsConsistent_example :
    (length (parse_iosxe_interfaces {F = ℕ} two_ports)
      ≡ length (blocks ios_header (chars two_ports)))
    × All IsConsistent (parse_iosxe_interfaces {F = ℕ} two_ports)
parse_iosxe_interfaces-IsConsistent_example = parse_iosxe_interfaces-IsConsistent ℕ two_ports

parse_ios_interfaces-IsConsistent_example :
    (length (parse_ios_interfaces {F = ℕ} two_ports) ≡ length (blocks ios_header (chars two_ports)))
    × All IsConsistent (parse_ios_interfaces {F = ℕ} two_ports)
parse_ios_interfaces-IsConsistent_example = parse_ios_interfaces-IsConsistent ℕ two_ports
