-- ===== src/Provider/Cli/Nxos/Panics.antt =====
-- `ParseNXOSInterfaces`: when it panics, and what it returns otherwise.
use gcisco_exporter.Base.{
  ℕ, suc, ◌≡◌, ◌↔◌, refl, ap, ◌∙◌, sym, ◌⊎◌, inl, inr, String, Bool, true, false, ◌||◌, Option,
  none, some, some-injective, List, [], ◌∷◌, length, All, arith,
}
use gcisco_exporter.Strings.{Chars, chars}
use gcisco_exporter.Regexp.Find.{find_submatch}
use gcisco_exporter.Regexp.Groups.{group_count, find_submatch-length, Keeps}
use gcisco_exporter.Float.{Float64}
use gcisco_exporter.Provider.Cli.{CliInterface}
use gcisco_exporter.Provider.Cli.Lines.{◌>>=◌, each_or_panic, trimmed_lines, blocks}
use gcisco_exporter.Provider.Cli.Nxos.Patterns.{
  ethernet_header, no_buffer, input_error, output_error,
}
use gcisco_exporter.Provider.Cli.Nxos.Interfaces.{
  set_buffer, set_input_errors, set_output_errors, set_nxos_bytes, set_nxos_counts,
  nxos_interface_line, nxos_interface, nxos_block, nxos_blocks, parse_nxos_interfaces,
}
use gcisco_exporter.Provider.Cli.Nxos.Errors.{
  is_match, occurs_in, is_match-cases, bind_of_none, IsAdminUp, set_nxos_bytes-IsAdminUp,
  set_nxos_counts-IsAdminUp, set_buffer-panics, set_input_errors-panics, set_output_errors-panics,
}

-- the lines whose match has fewer groups than the body reads
unfoldable pub breaks : Chars → Bool
unfolding occurs_in
breaks line = occurs_in no_buffer line || occurs_in input_error line || occurs_in output_error line

unfoldable pub any_breaks : List Chars → Bool
unfolding breaks
any_breaks [] = false
any_breaks (line ∷ lines) = breaks line || any_breaks lines

unfoldable pub any_block_breaks : List (Chars × Chars) → Bool
unfolding any_breaks
any_block_breaks [] = false
any_block_breaks ((header, block) ∷ rest) =
    any_breaks (trimmed_lines block) || any_block_breaks rest

module _ {F : Type 0} ⦃fl : Float64 F⦄ where
  -- the line breaks and the step panics, or it does not and the step returns an interface that is up
  abbrev Ends : Bool → Option (CliInterface F) → Type 0
  Ends b o =
      ((b ≡ true) × (o ≡ none))
      ⊎ ((b ≡ false) × ((after : CliInterface F) × (o ≡ some after) × IsAdminUp after))

  after_errors :
      (buffer input output : List Chars) (line : Chars) (iface : CliInterface F)
      → ((is_match buffer ≡ false) × (buffer ≡ []))
        ⊎ ((is_match buffer ≡ true) × (length buffer ≡ 5))
      → ((is_match input ≡ false) × (input ≡ [])) ⊎ ((is_match input ≡ true) × (length input ≡ 6))
      → ((is_match output ≡ false) × (output ≡ []))
        ⊎ ((is_match output ≡ true) × (length output ≡ 5))
      → IsAdminUp iface
      → Ends (is_match buffer || is_match input || is_match output) (
          set_buffer buffer iface >>= (λ buffered. set_input_errors input buffered >>= (λ received.
            set_output_errors output received >>= (λ sent. some (set_nxos_counts line sent)))))
  unfolding is_match ◌>>=◌ Keeps set_buffer set_input_errors set_output_errors
  after_errors buffer input output line iface (inr b) i o h =
      inl (rw (b.0) refl, bind_of_none _ _ (set_buffer-panics buffer iface (b.1)))
  after_errors buffer input output line iface (inl b) (inr i) o h =
      inl (
        rw (b.0, i.0) refl,
        rw (b.1) (bind_of_none _ _ (set_input_errors-panics input iface (i.1))),
      )
  after_errors buffer input output line iface (inl b) (inl i) (inr o) h = inl (
    rw (b.0, i.0, o.0) refl,
    rw (b.1, i.1) (bind_of_none _ _ (set_output_errors-panics output iface (o.1))),
  )
  after_errors buffer input output line iface (inl b) (inl i) (inl o) h = inr (
    rw (b.0, i.0, o.0) refl,
    (set_nxos_counts line iface, rw (b.1, i.1, o.1) refl, set_nxos_counts-IsAdminUp F line iface h),
  )

  nxos_interface_line-Ends :
      (iface : CliInterface F) (line : Chars)
      → IsAdminUp iface
      → Ends (breaks line) (nxos_interface_line iface line)
  unfolding nxos_interface_line breaks occurs_in Keeps group_count
  nxos_interface_line-Ends iface line h =
      after_errors (find_submatch no_buffer line) (find_submatch input_error line)
        (find_submatch output_error line) line (set_nxos_bytes line iface)
        (is_match-cases 4 _ (find_submatch-length no_buffer line))
        (is_match-cases 5 _ (find_submatch-length input_error line))
        (is_match-cases 4 _ (find_submatch-length output_error line))
        (set_nxos_bytes-IsAdminUp F line iface h)

  -- the rest of the loop, after a step
  each_or_panic-Ends :
      (iface : CliInterface F) (lines : List Chars)
      → IsAdminUp iface
      → Ends (any_breaks lines) (each_or_panic nxos_interface_line iface lines)
  unfolding each_or_panic any_breaks ◌>>=◌
  each_or_panic-Ends iface [] h = inr (refl, (iface, refl, h))
  each_or_panic-Ends iface (line ∷ lines) h = elim (nxos_interface_line-Ends iface line h) [
    | inl p ↦ inl (rw (p.0) refl, rw (p.1) refl)
    | inr p ↦ rw (p.0, (p.1).1) (each_or_panic-Ends ((p.1).0) lines ((p.1).2))
  ]

  nxos_block-Ends :
      (header block : Chars) → Ends (any_breaks (trimmed_lines block)) (nxos_block header block)
  unfolding nxos_block nxos_interface IsAdminUp
  nxos_block-Ends header block =
      each_or_panic-Ends (nxos_interface header) (trimmed_lines block) refl

  -- the same of the loop over the blocks
  abbrev BlocksEnd : Bool → ℕ → Option (List (CliInterface F)) → Type 0
  BlocksEnd b n o =
      ((b ≡ true) × (o ≡ none))
      ⊎ ((b ≡ false)
          × ((found : List (CliInterface F)) × (o ≡ some found)
              × (length found ≡ n)
              × All IsAdminUp found))

  nxos_blocks-BlocksEnd :
      (list : List (Chars × Chars))
      → BlocksEnd (any_block_breaks list) (length list) (nxos_blocks list)
  unfolding nxos_blocks any_block_breaks ◌>>=◌
  nxos_blocks-BlocksEnd [] = inr (refl, ([], refl, refl, tt))
  nxos_blocks-BlocksEnd ((header, block) ∷ rest) = elim (nxos_block-Ends header block) [
    | inl p ↦ inl (rw (p.0) refl, rw (p.1) refl)
    | inr p ↦ elim (nxos_blocks-BlocksEnd rest) [
      | inl q ↦ inl (rw (p.0, q.0) refl, rw ((p.1).1, q.1) refl)
      | inr q ↦ inr (
        rw (p.0, q.0) refl,
        (
          (p.1).0 ∷ (q.1).0,
          rw ((p.1).1, (q.1).1) refl,
          ap (λ n. suc n) ((q.1).2),
          ((p.1).2, (q.1).3),
        ),
      )
    ]
  ]

  -- `ParseNXOSInterfaces` panics, which its result `none` stands for, exactly when the block of some
  -- interface has a line in which the pattern of the buffer errors, of the input errors or of the output
  -- errors occurs: those patterns have fewer groups than the code reads.
  pub parse_nxos_interfaces-panics :
      (output : String)
      → (parse_nxos_interfaces {F = F} output ≡ none)
        ↔ (any_block_breaks (blocks ethernet_header (chars output)) ≡ true)
  unfolding parse_nxos_interfaces
  parse_nxos_interfaces-panics output =
      elim (nxos_blocks-BlocksEnd (blocks ethernet_header (chars output))) [
        | inl p ↦ ((λ e. p.0), (λ e. p.1))
        | inr p ↦ ((λ e. absurd (grind (arith, e, (p.1).1))), (λ e. absurd (grind (arith, e, p.0))))
      ]

  -- Where `ParseNXOSInterfaces` returns, it returns one interface for each header that its pattern finds, and
  -- reports every one of them as administratively up, also those that are `admin down`.
  pub parse_nxos_interfaces-IsAdminUp :
      (output : String) (interfaces : List (CliInterface F))
      → parse_nxos_interfaces output ≡ some interfaces
      → (length interfaces ≡ length (blocks ethernet_header (chars output)))
        × All IsAdminUp interfaces
  unfolding parse_nxos_interfaces
  parse_nxos_interfaces-IsAdminUp output interfaces h =
      elim (nxos_blocks-BlocksEnd (blocks ethernet_header (chars output))) [
        | inl p ↦ absurd (grind (arith, h, p.1))
        | inr p ↦
            let same : interfaces ≡ (p.1).0 = some-injective _ _ (sym h ∙ (p.1).1) in
            rw same ((p.1).2, (p.1).3)
      ]
