-- ===== src/Provider/Cli/Iosxe/States.antt =====
-- internal/provider/ssh/parser_iosxe.go: the states of the interfaces that `ParseIOSXEInterfaces` returns.
use gcisco_exporter.Base.{◌≡◌, refl, ap, suc, String, List, [], ◌∷◌, length, All}
use gcisco_exporter.Strings.{Chars, chars}
use gcisco_exporter.Regexp.Groups.{Keeps, next1-Keeps, next2-Keeps, nothing-Keeps}
use gcisco_exporter.Float.{Float64}
use gcisco_exporter.Provider.Cli.{CliInterface}
use gcisco_exporter.Provider.Cli.Lines.{trimmed_lines, blocks}
use gcisco_exporter.Provider.Cli.States.{IsConsistent, up-not_down, each-keeps}
use gcisco_exporter.Provider.Cli.Patterns.{ios_header}
use gcisco_exporter.Provider.Cli.Iosxe.Interfaces.{
  set_iosxe_errors, set_iosxe_counts, iosxe_interface_line, iosxe_interface, iosxe_block,
  iosxe_blocks, parse_iosxe_interfaces,
}

module _ (F : Type 0) ⦃fl : Float64 F⦄ where
  set_iosxe_errors-IsConsistent :
      (line : Chars) → Keeps (IsConsistent {F = F}) (set_iosxe_errors line)
  unfolding set_iosxe_errors IsConsistent
  set_iosxe_errors-IsConsistent line =
      next2-Keeps IsConsistent _ _ _ _ (λ x y a h. h)
        (next2-Keeps IsConsistent _ _ _ _ (λ x y a h. h)
          (next2-Keeps IsConsistent _ _ _ _ (λ x y a h. h)
            (next2-Keeps IsConsistent _ _ _ _ (λ x y a h. h)
              (next1-Keeps IsConsistent _ _ _ _ (λ x a h. h)
                (next1-Keeps IsConsistent _ _ _ _ (λ x a h. h) (nothing-Keeps IsConsistent))))))

  set_iosxe_counts-IsConsistent :
      (line : Chars) → Keeps (IsConsistent {F = F}) (set_iosxe_counts line)
  unfolding set_iosxe_counts IsConsistent
  set_iosxe_counts-IsConsistent line =
      next1-Keeps IsConsistent _ _ _ _ (λ x a h. h)
        (next1-Keeps IsConsistent _ _ _ _ (λ x a h. h)
          (next1-Keeps IsConsistent _ _ _ _ (λ x a h. h)
            (next1-Keeps IsConsistent _ _ _ _ (λ x a h. h)
              (next1-Keeps IsConsistent _ _ _ _ (λ x a h. h)
                (next1-Keeps IsConsistent _ _ _ _ (λ x a h. h)
                  (next2-Keeps IsConsistent _ _ _ _ (λ x y a h. h)
                    (nothing-Keeps IsConsistent)))))))

  iosxe_interface_line-IsConsistent :
      (iface : CliInterface F) (line : Chars)
      → IsConsistent iface
      → IsConsistent (iosxe_interface_line iface line)
  unfolding iosxe_interface_line Keeps
  iosxe_interface_line-IsConsistent iface line h =
      set_iosxe_counts-IsConsistent line (set_iosxe_errors line iface)
        (set_iosxe_errors-IsConsistent line iface h)

  iosxe_block-IsConsistent :
      (header block : Chars) → IsConsistent (iosxe_block {F = F} header block)
  unfolding iosxe_block iosxe_interface IsConsistent
  iosxe_block-IsConsistent header block =
      each-keeps IsConsistent iosxe_interface_line (iosxe_interface header) (trimmed_lines block)
        iosxe_interface_line-IsConsistent (up-not_down _)

  iosxe_blocks-IsConsistent :
      (list : List (Chars × Chars))
      → (length (iosxe_blocks {F = F} list) ≡ length list)
        × All IsConsistent (iosxe_blocks {F = F} list)
  unfolding iosxe_blocks
  iosxe_blocks-IsConsistent [] = (refl, tt)
  iosxe_blocks-IsConsistent ((header, block) ∷ rest) =
      let h = iosxe_blocks-IsConsistent rest in
      (ap (λ n. suc n) (h.0), (iosxe_block-IsConsistent header block, h.1))

  -- `ParseIOSXEInterfaces` returns one interface for each header that its pattern finds, and reports none as
  -- operationally up and administratively down at once.
  pub parse_iosxe_interfaces-IsConsistent :
      (output : String)
      → (length (parse_iosxe_interfaces {F = F} output) ≡ length (blocks ios_header (chars output)))
        × All IsConsistent (parse_iosxe_interfaces {F = F} output)
  unfolding parse_iosxe_interfaces
  parse_iosxe_interfaces-IsConsistent output =
      iosxe_blocks-IsConsistent (blocks ios_header (chars output))
