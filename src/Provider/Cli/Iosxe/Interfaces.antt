-- ===== src/Provider/Cli/Iosxe/Interfaces.antt =====
-- internal/provider/ssh/parser_iosxe.go: `ParseIOSXEInterfaces`.
use gcisco_exporter.Base.{zero, String, not, List, [], ◌∷◌, if◌then◌else◌}
use gcisco_exporter.Strings.{Chars, chars, text_of, same_chars}
use gcisco_exporter.Regexp.Find.{on1, on2, in_order, find_submatch, remove_all, when1}
use gcisco_exporter.Float.{Float64, value}
use gcisco_exporter.Provider.Cli.{CliInterface}
use gcisco_exporter.Provider.Cli.Lines.{each, trimmed_lines, blocks}
use gcisco_exporter.Provider.Cli.Patterns.{
  header_tail, ios_header, ios_status, packets_input, packets_output, input_errors, output_errors,
  runts, giants, input_drops, input_discards, output_discards, interface_resets, mtu, bandwidth,
}
use gcisco_exporter.Provider.Cli.Iosxe.Patterns.{total_output_drops}

module _ {F : Type 0} ⦃fl : Float64 F⦄ where
  -- `speed` in bits, from a number and its unit
  unfoldable pub iosxe_speed : F → Chars → F
  iosxe_speed speed unit =
      if same_chars unit (chars "K")
      then fl.times speed (fl.of_nat 1000)
      else if same_chars unit (chars "M")
      then fl.times speed (fl.of_nat 1000000)
      else if same_chars unit (chars "G")
      then fl.times speed (fl.of_nat 1000000000)
      else if same_chars unit (chars "T")
      then fl.times speed (fl.of_nat 1000000000000)
      else speed

  unfoldable pub set_iosxe_errors : Chars → CliInterface F → CliInterface F
  set_iosxe_errors line = in_order (
      on2 packets_input line (λ a b held. record held { rx_bytes = value b })
      ∷ on2 packets_output line (λ a b held. record held { tx_bytes = value b })
      ∷ on2 input_errors line (λ a b held. record held { rx_errors = value a; rx_crc = value b })
      ∷ on2 output_errors line (λ a b held. record held { tx_errors = value a })
      ∷ on1 runts line (λ a held. record held { rx_runts = value a })
      ∷ on1 giants line (λ a held. record held { rx_giants = value a })
      ∷ [])

  unfoldable pub set_iosxe_counts : Chars → CliInterface F → CliInterface F
  set_iosxe_counts line = in_order (
      on1 total_output_drops line (λ a held. record held { tx_drops = value a })
      ∷ on1 input_drops line (λ a held. record held { rx_drops = value a })
      ∷ on1 input_discards line (λ a held. record held { rx_discards = value a })
      ∷ on1 output_discards line (λ a held. record held { tx_discards = value a })
      ∷ on1 interface_resets line (λ a held. record held { resets = value a })
      ∷ on1 mtu line (λ a held. record held { mtu = value a })
      ∷ on2 bandwidth line (λ a b held. record held { speed = iosxe_speed (value a) b })
      ∷ [])

  unfoldable pub iosxe_interface_line : CliInterface F → Chars → CliInterface F
  unfolding set_iosxe_errors set_iosxe_counts
  iosxe_interface_line iface line = set_iosxe_counts line (set_iosxe_errors line iface)

  -- an interface as its header declares it
  unfoldable pub iosxe_interface : Chars → CliInterface F
  iosxe_interface header =
      let status = when1 (find_submatch ios_status header) [] (λ a. a) in
      let none_yet = fl.of_nat zero in
      record {
        name = text_of (remove_all header_tail header);
        admin_up = not (same_chars status (chars "administratively down"));
        oper_up = same_chars status (chars "up");
        speed = none_yet;
        mtu = none_yet;
        rx_bytes = none_yet;
        tx_bytes = none_yet;
        rx_errors = none_yet;
        tx_errors = none_yet;
        rx_crc = none_yet;
        rx_runts = none_yet;
        rx_giants = none_yet;
        rx_drops = none_yet;
        tx_drops = none_yet;
        rx_discards = none_yet;
        tx_discards = none_yet;
        resets = none_yet;
      }

  unfoldable pub iosxe_block : Chars → Chars → CliInterface F
  unfolding iosxe_interface each trimmed_lines iosxe_interface_line
  iosxe_block header block =
      each iosxe_interface_line (iosxe_interface header) (trimmed_lines block)

  unfoldable pub iosxe_blocks : List (Chars × Chars) → List (CliInterface F)
  unfolding iosxe_block
  iosxe_blocks [] = []
  iosxe_blocks ((header, block) ∷ rest) = iosxe_block header block ∷ iosxe_blocks rest

  unfoldable pub parse_iosxe_interfaces : String → List (CliInterface F)
  unfolding blocks iosxe_blocks
  parse_iosxe_interfaces output = iosxe_blocks (blocks ios_header (chars output))
