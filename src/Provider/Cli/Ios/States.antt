-- ===== src/Provider/Cli/Ios/States.antt =====
-- internal/provider/ssh/parser_ios_classic.go: the states of the interfaces that `ParseInterfaces` returns.
use gcisco_exporter.Base.{◌≡◌, refl, ap, suc, String, List, [], ◌∷◌, length, All}
use gcisco_exporter.Strings.{Chars, chars}
use gcisco_exporter.Regexp.Groups.{Keeps, next1-Keeps, next2-Keeps, nothing-Keeps}
use gcisco_exporter.Float.{Float64}
use gcisco_exporter.Provider.Cli.{CliInterface}
use gcisco_exporter.Provider.Cli.Lines.{trimmed_lines, blocks}
use gcisco_exporter.Provider.Cli.States.{IsConsistent, up-not_down, each-keeps}
use gcisco_exporter.Provider.Cli.Patterns.{ios_header}
use gcisco_exporter.Provider.Cli.Ios.Interfaces.{
  set_ios_errors, set_ios_counts, ios_interface_line, ios_interface, ios_block, ios_blocks,
  parse_ios_interfaces,
}

module _ (F : Type 0) ⦃fl : Float64 F⦄ where
  set_ios_errors-IsConsistent : (line : Chars) → Keeps (IsConsistent {F = F}) (set_ios_errors line)
  unfolding set_ios_errors IsConsistent
  set_ios_errors-IsConsistent line =
      next2-Keeps IsConsistent _ _ _ _ (λ x y a h. h)
        (next2-Keeps IsConsistent _ _ _ _ (λ x y a h. h)
          (next2-Keeps IsConsistent _ _ _ _ (λ x y a h. h)
            (next2-Keeps IsConsistent _ _ _ _ (λ x y a h. h)
              (next1-Keeps IsConsistent _ _ _ _ (λ x a h. h)
                (next1-Keeps IsConsistent _ _ _ _ (λ x a h. h) (nothing-Keeps IsConsistent))))))

  set_ios_counts-IsConsistent : (line : Chars) → Keeps (IsConsistent {F = F}) (set_ios_counts line)
  unfolding set_ios_counts IsConsistent
  set_ios_counts-IsConsistent line =
      next1-Keeps IsConsistent _ _ _ _ (λ x a h. h)
        (next1-Keeps IsConsistent _ _ _ _ (λ x a h. h)
          (next1-Keeps IsConsistent _ _ _ _ (λ x a h. h)
            (next1-Keeps IsConsistent _ _ _ _ (λ x a h. h)
              (next1-Keeps IsConsistent _ _ _ _ (λ x a h. h)
                (next1-Keeps IsConsistent _ _ _ _ (λ x a h. h)
                  (next2-Keeps IsConsistent _ _ _ _ (λ x y a h. h)
                    (nothing-Keeps IsConsistent)))))))

  ios_interface_line-IsConsistent :
      (iface : CliInterface F) (line : Chars)
      → IsConsistent iface
      → IsConsistent (ios_interface_line iface line)
  unfolding ios_interface_line Keeps
  ios_interface_line-IsConsistent iface line h =
      set_ios_counts-IsConsistent line (set_ios_errors line iface)
        (set_ios_errors-IsConsistent line iface h)

  ios_block-IsConsistent : (header block : Chars) → IsConsistent (ios_block {F = F} header block)
  unfolding ios_block ios_interface IsConsistent
  ios_block-IsConsistent header block =
      each-keeps IsConsistent ios_interface_line (ios_interface header) (trimmed_lines block)
        ios_interface_line-IsConsistent (up-not_down _)

  ios_blocks-IsConsistent :
      (list : List (Chars × Chars))
      → (length (ios_blocks {F = F} list) ≡ length list)
        × All IsConsistent (ios_blocks {F = F} list)
  unfolding ios_blocks
  ios_blocks-IsConsistent [] = (refl, tt)
  ios_blocks-IsConsistent ((header, block) ∷ rest) =
      let h = ios_blocks-IsConsistent rest in
      (ap (λ n. suc n) (h.0), (ios_block-IsConsistent header block, h.1))

  -- `ParseInterfaces` returns one interface for each header that its pattern finds, and reports none as
  -- operationally up and administratively down at once.
  pub parse_ios_interfaces-IsConsistent :
      (output : String)
      → (length (parse_ios_interfaces {F = F} output) ≡ length (blocks ios_header (chars output)))
        × All IsConsistent (parse_ios_interfaces {F = F} output)
  unfolding parse_ios_interfaces
  parse_ios_interfaces-IsConsistent output =
      ios_blocks-IsConsistent (blocks ios_header (chars output))
