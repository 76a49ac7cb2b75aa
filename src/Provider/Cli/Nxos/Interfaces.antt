-- ===== src/Provider/Cli/Nxos/Interfaces.antt =====
-- internal/provider/ssh/parser_nxos.go: `ParseNXOSInterfaces`. Three of its patterns have fewer groups than the
-- body indexes, and an index out of range panics: `none`.
use gcisco_exporter.Base.{
  ℕ, zero, suc, ◌+◌, String, true, Option, none, some, List, [], ◌∷◌, length, ltb, if◌then◌else◌,
}
use gcisco_exporter.Strings.{Chars, chars, text_of, same_chars}
use gcisco_exporter.Regexp.Find.{on1, on2, in_order, find_submatch, remove_all, when1}
use gcisco_exporter.Float.{Float64, value}
use gcisco_exporter.Provider.Cli.{CliInterface}
use gcisco_exporter.Provider.Cli.Lines.{◌>>=◌, each_or_panic, trimmed_lines, blocks}
use gcisco_exporter.Provider.Cli.Patterns.{header_tail}
use gcisco_exporter.Provider.Cli.Nxos.Patterns.{
  ethernet_header, ethernet_status, input_packets, output_packets, no_buffer, input_error,
  output_error, input_discard, output_discard, resets, if_down_drop, mtu_bandwidth,
}

-- `m[i]`
unfoldable pub at : ℕ → List Chars → Option Chars
at i [] = none
at zero (a ∷ m) = some a
at (suc i) (a ∷ m) = at i m

module _ {F : Type 0} ⦃fl : Float64 F⦄ where
  -- the sum of the `count` groups from `m[j]`, those that are not empty
  unfoldable pub sum_groups : ℕ → ℕ → List Chars → F → Option F
  unfolding at value ◌>>=◌
  sum_groups zero j m total = some total
  sum_groups (suc count) j m total = do
    text ← at j m
    sum_groups count (j + 1) m (if same_chars text [] then total else fl.plus total (value text))

  -- `if m := …; len(m) > 4 { … }` on the buffer errors, with `m[5]`
  unfoldable pub set_buffer : List Chars → CliInterface F → Option (CliInterface F)
  unfolding at value ◌>>=◌
  set_buffer m iface =
      if ltb 4 (length m)
      then (do
        errors ← at 1 m
        runts ← at 3 m
        giants ← at 4 m
        crc ← at 5 m
        some (record iface {
          rx_errors = value errors;
          rx_runts = value runts;
          rx_giants = value giants;
          rx_crc = value crc;
        }))
      else some iface

  -- `if m := …; len(m) > 2 { … }` on the input errors, with `m[1]` to `m[6]`
  unfoldable pub set_input_errors : List Chars → CliInterface F → Option (CliInterface F)
  unfolding sum_groups ◌>>=◌
  set_input_errors m iface =
      if ltb 2 (length m)
      then (do total ← sum_groups 6 1 m (fl.of_nat zero); some (record iface { rx_errors = total }))
      else some iface

  -- `if m := …; len(m) > 2 { … }` on the output errors, with `m[1]` to `m[5]`
  unfoldable pub set_output_errors : List Chars → CliInterface F → Option (CliInterface F)
  unfolding sum_groups ◌>>=◌
  set_output_errors m iface =
      if ltb 2 (length m)
      then (do total ← sum_groups 5 1 m (fl.of_nat zero); some (record iface { tx_errors = total }))
      else some iface

  unfoldable pub set_nxos_bytes : Chars → CliInterface F → CliInterface F
  set_nxos_bytes line = in_order (
      on2 input_packets line (λ a b held. record held { rx_bytes = value b })
      ∷ on2 output_packets line (λ a b held. record held { tx_bytes = value b })
      ∷ [])

  unfoldable pub set_nxos_counts : Chars → CliInterface F → CliInterface F
  set_nxos_counts line = in_order (
      on1 input_discard line (λ a held. record held { rx_discards = value a })
      ∷ on1 output_discard line (λ a held. record held { tx_discards = value a })
      ∷ on1 resets line (λ a held. record held { resets = value a })
      ∷ on1 if_down_drop line (λ a held. record held { rx_drops = value a })
      ∷ on2 mtu_bandwidth line
          (λ a b held. record held { mtu = value a; speed = fl.times (value b) (fl.of_nat 1000) })
      ∷ [])

  unfoldable pub nxos_interface_line : CliInterface F → Chars → Option (CliInterface F)
  nxos_interface_line iface line = do
    buffered ← set_buffer (find_submatch no_buffer line) (set_nxos_bytes line iface)
    received ← set_input_errors (find_submatch input_error line) buffered
    sent ← set_output_errors (find_submatch output_error line) received
    some (set_nxos_counts line sent)

  -- an interface as its header declares it
  unfoldable pub nxos_interface : Chars → CliInterface F
  nxos_interface header =
      let status = when1 (find_submatch ethernet_status header) [] (λ a. a) in
      let none_yet = fl.of_nat zero in
      record {
        name = text_of (remove_all header_tail header);
        admin_up = true;
        oper_up = same_chars status (chars "up");
        speed = none_yet;
        mtu = none_yet;
        rx_bytes = none_yet;
        tx_bytes = none_yet;
        rx_errors = none_yet;
        tx_errors = none_yet;
        rx_crc = none_yet;
        rx_runts = none_yet;
        rx_giants = none_yet;
        rx_drops = none_yet;
        tx_drops = none_yet;
        rx_discards = none_yet;
        tx_discards = none_yet;
        resets = none_yet;
      }

  unfoldable pub nxos_block : Chars → Chars → Option (CliInterface F)
  unfolding nxos_interface each_or_panic trimmed_lines nxos_interface_line
  nxos_block header block =
      each_or_panic nxos_interface_line (nxos_interface header) (trimmed_lines block)

  unfoldable pub nxos_blocks : List (Chars × Chars) → Option (List (CliInterface F))
  unfolding nxos_block ◌>>=◌
  nxos_blocks [] = some []
  nxos_blocks ((header, block) ∷ rest) = do
    iface ← nxos_block header block
    interfaces ← nxos_blocks rest
    some (iface ∷ interfaces)

  unfoldable pub parse_nxos_interfaces : String → Option (List (CliInterface F))
  unfolding blocks nxos_blocks
  parse_nxos_interfaces output = nxos_blocks (blocks ethernet_header (chars output))
