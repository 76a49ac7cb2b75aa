-- ===== src/Provider/Cli/Lines.antt =====
-- internal/provider/ssh/parser_*.go: what the parsers of the three platforms share: the loop over the lines of
-- an output, the blocks of `show interface`, and the numbers in a text.
use gcisco_exporter.Base.{
  zero, Bool, true, false, Option, none, some, List, [], ◌∷◌, map, if◌then◌else◌,
}
use gcisco_exporter.Strings.{Chars, split_lines, trim_space, before, contains_lower}
use gcisco_exporter.Regexp.{Match, Pattern}
use gcisco_exporter.Regexp.Find.{matches_from}
use gcisco_exporter.Float.{Float64}

infixl 1 ◌>>=◌
-- what follows an operation that can panic
unfoldable pub ◌>>=◌ : {A B : Type 0} → Option A → (A → Option B) → Option B
none >>= next = none
some a >>= next = next a

module _ {A : Type 0} where
  -- `for _, line := range lines { … }`, on what the loop assigns
  unfoldable pub each : {B : Type 0} → (A → B → A) → A → List B → A
  each step a [] = a
  each step a (b ∷ list) = each step (step a b) list

  -- the same where the body can panic
  unfoldable pub each_or_panic : {B : Type 0} → (A → B → Option A) → A → List B → Option A
  unfolding ◌>>=◌
  each_or_panic step a [] = some a
  each_or_panic step a (b ∷ list) = step a b >>= (λ next. each_or_panic step next list)

-- `strings.Split(output, "\n")`, each with `strings.TrimSpace`
unfoldable pub trimmed_lines : Chars → List Chars
unfolding split_lines trim_space
trimmed_lines output = map trim_space (split_lines output)

-- The blocks of the interfaces: for each match of the header's pattern, the header, and the output from its
-- start to the start of the next match.
unfoldable pub blocks_of : List (Chars × Match) → List (Chars × Chars)
unfolding before
blocks_of [] = []
blocks_of ((start, found) ∷ []) = (before start found.after.rest, start) ∷ []
blocks_of ((start, found) ∷ (next, following) ∷ rest) =
    (before start found.after.rest, before start next) ∷ blocks_of ((next, following) ∷ rest)

unfoldable pub blocks : Pattern → Chars → List (Chars × Chars)
unfolding matches_from blocks_of
blocks pattern output = blocks_of (matches_from pattern zero none output)

-- `strings.Contains(s, "synchronized") && !strings.Contains(s, "unsynchronized")` on the lower case
unfoldable pub is_synchronized : Chars → Bool
unfolding contains_lower
is_synchronized s =
    if contains_lower s "synchronized"
    then (if contains_lower s "unsynchronized" then false else true)
    else false

module _ {F : Type 0} ⦃fl : Float64 F⦄ where
  -- `max` after a utilization of `used` out of `total`, where `total > 0`
  unfoldable pub raise : F → F → F → F
  raise max used total =
      let util = fl.times (fl.over used total) (fl.of_nat 100) in
      if fl.less (fl.of_nat zero) total then (if fl.less max util then util else max) else max
