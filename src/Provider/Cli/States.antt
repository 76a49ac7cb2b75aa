-- ===== src/Provider/Cli/States.antt =====
-- internal/provider/ssh: what the parsers of IOS and IOS-XE share in their proofs: the two states of an
-- interface.
use gcisco_exporter.Base.{◌≡◌, refl, true, not, List, [], ◌∷◌, arith}
use gcisco_exporter.Text.{same_codes}
use gcisco_exporter.Strings.{Chars, chars, same_chars}
use gcisco_exporter.Provider.Cli.{CliInterface}
use gcisco_exporter.Provider.Cli.Lines.{each}

-- an interface that is up is administratively up
unfoldable pub IsConsistent : {F : Type 0} → CliInterface F → Type 0
IsConsistent iface = iface.oper_up ≡ true → iface.admin_up ≡ true

-- `up` is not `administratively down`
pub up-not_down :
    (status : Chars)
    → same_chars status (chars "up") ≡ true
    → not (same_chars status (chars "administratively down")) ≡ true
unfolding same_codes
up-not_down [] h = refl
up-not_down (c ∷ s) h = ground (arith, h)

module _ {A B : Type 0} (P : A → Type 0) (step : A → B → A) where
  pub each-keeps :
      (a : A) (list : List B) → ((a : A) (b : B) → P a → P (step a b)) → P a → P (each step a list)
  unfolding each
  each-keeps a [] h p = p
  each-keeps a (b ∷ list) h p = each-keeps (step a b) list h (h a b p)
