-- ===== src/Provider/Cli/Nxos/Errors.antt =====
-- internal/provider/ssh/parser_nxos.go: the three matches whose groups are too few, and what the other statements
-- of `ParseNXOSInterfaces` keep.
use gcisco_exporter.Base.{
  ℕ, zero, suc, ◌+◌, ◌≤◌, ◌≡◌, refl, ◌⊎◌, inl, inr, Bool, true, false, Option, none, some, List, [],
  ◌∷◌, length, arith,
}
use gcisco_exporter.Strings.{Chars}
use gcisco_exporter.Regexp.{Pattern}
use gcisco_exporter.Regexp.Find.{find_submatch}
use gcisco_exporter.Regexp.Groups.{next1-Keeps, next2-Keeps, nothing-Keeps, Keeps}
use gcisco_exporter.Float.{Float64}
use gcisco_exporter.Provider.Cli.{CliInterface}
use gcisco_exporter.Provider.Cli.Lines.{◌>>=◌}
use gcisco_exporter.Provider.Cli.Nxos.Interfaces.{
  at, sum_groups, set_buffer, set_input_errors, set_output_errors, set_nxos_bytes, set_nxos_counts,
}

-- whether a match is not nil
unfoldable pub is_match : List Chars → Bool
is_match [] = false
is_match (text ∷ m) = true

-- whether a pattern occurs in a line
unfoldable pub occurs_in : Pattern → Chars → Bool
unfolding is_match
occurs_in pattern line = is_match (find_submatch pattern line)

pub is_match-cases :
    (n : ℕ) (m : List Chars)
    → (m ≡ []) ⊎ (length m ≡ suc n)
    → ((is_match m ≡ false) × (m ≡ [])) ⊎ ((is_match m ≡ true) × (length m ≡ suc n))
unfolding is_match
is_match-cases n [] h = inl (refl, refl)
is_match-cases n (text ∷ m) (inl e) = absurd (grind (arith, e))
is_match-cases n (text ∷ m) (inr e) = inr (refl, e)

at-none : (i : ℕ) (m : List Chars) → length m ≤ i → at i m ≡ none
unfolding at
at-none i [] h = refl
at-none zero (text ∷ m) h = absurd (omega arith)
at-none (suc i) (text ∷ m) h = at-none i m (omega arith)

bind-none :
    {A B : Type 0} (o : Option A) (f : A → Option B) → ((a : A) → f a ≡ none) → (o >>= f) ≡ none
unfolding ◌>>=◌
bind-none none f h = refl
bind-none (some a) f h = h a

pub bind_of_none : {A B : Type 0} (o : Option A) (f : A → Option B) → o ≡ none → (o >>= f) ≡ none
unfolding ◌>>=◌
bind_of_none o f e = rw e refl

unfoldable pub IsAdminUp : {F : Type 0} → CliInterface F → Type 0
IsAdminUp iface = iface.admin_up ≡ true

module _ (F : Type 0) ⦃fl : Float64 F⦄ where
  pub set_nxos_bytes-IsAdminUp : (line : Chars) → Keeps (IsAdminUp {F = F}) (set_nxos_bytes line)
  unfolding set_nxos_bytes IsAdminUp
  set_nxos_bytes-IsAdminUp line =
      next2-Keeps IsAdminUp _ _ _ _ (λ x y a h. h)
        (next2-Keeps IsAdminUp _ _ _ _ (λ x y a h. h) (nothing-Keeps IsAdminUp))

  pub set_nxos_counts-IsAdminUp : (line : Chars) → Keeps (IsAdminUp {F = F}) (set_nxos_counts line)
  unfolding set_nxos_counts IsAdminUp
  set_nxos_counts-IsAdminUp line =
      next1-Keeps IsAdminUp _ _ _ _ (λ x a h. h)
        (next1-Keeps IsAdminUp _ _ _ _ (λ x a h. h)
          (next1-Keeps IsAdminUp _ _ _ _ (λ x a h. h)
            (next1-Keeps IsAdminUp _ _ _ _ (λ x a h. h)
              (next2-Keeps IsAdminUp _ _ _ _ (λ x y a h. h) (nothing-Keeps IsAdminUp)))))

module _ {F : Type 0} ⦃fl : Float64 F⦄ where
  pub set_buffer-panics :
      (m : List Chars) (iface : CliInterface F) → length m ≡ 5 → set_buffer m iface ≡ none
  unfolding set_buffer
  set_buffer-panics m iface h = rw h (
      bind-none (at 1 m) _ (λ errors. bind-none (at 3 m) _ (λ runts.
        bind-none (at 4 m) _ (λ giants. bind_of_none (at 5 m) _ (at-none 5 m (omega arith))))))

  sum_groups-panics :
      (count j : ℕ) (m : List Chars) (total : F)
      → length m ≤ j + count
      → sum_groups (suc count) j m total ≡ none
  unfolding sum_groups ◌>>=◌
  sum_groups-panics zero j m total h = rw (at-none j m (omega arith)) refl
  sum_groups-panics (suc count) j m total h =
      bind-none (at j m) _ (λ text. sum_groups-panics count (j + 1) m _ (omega arith))

  pub set_input_errors-panics :
      (m : List Chars) (iface : CliInterface F) → length m ≡ 6 → set_input_errors m iface ≡ none
  unfolding set_input_errors
  set_input_errors-panics m iface h =
      rw h (
        bind_of_none (sum_groups 6 1 m _) _
          (sum_groups-panics 5 1 m (fl.of_nat zero) (omega arith)))

  pub set_output_errors-panics :
      (m : List Chars) (iface : CliInterface F) → length m ≡ 5 → set_output_errors m iface ≡ none
  unfolding set_output_errors
  set_output_errors-panics m iface h =
      rw h (
        bind_of_none (sum_groups 5 1 m _) _
          (sum_groups-panics 4 1 m (fl.of_nat zero) (omega arith)))
