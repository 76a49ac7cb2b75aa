-- ===== src/Regexp/Find.antt =====
-- What the program uses of Go's package `regexp`: the methods that find, and the statements around them.
use Prim.Native.Char.{code}
use gcisco_exporter.Base.{
  ℕ, zero, suc, ◌-◌, Option, none, some, List, [], ◌∷◌, nat_eq, if◌then◌else◌, length,
}
use gcisco_exporter.Strings.{Chars, before}
use gcisco_exporter.Regexp.{Pattern, Match, match_parts, or_else}

-- a match, and the text from its start
unfoldable pub from_here : Chars → Option Match → Option (Chars × Match)
from_here s none = none
from_here s (some found) = some (s, found)

-- the leftmost match
unfoldable pub search_from : Pattern → Option ℕ → Chars → Option (Chars × Match)
unfolding match_parts from_here or_else
search_from pattern previous [] =
    from_here [] (match_parts pattern (record { previous = previous; rest = [] }))
search_from pattern previous (c ∷ s) =
    or_else (from_here (c ∷ s) (match_parts pattern (record { previous = previous; rest = c ∷ s })))
      (search_from pattern (some (code c)) s)

unfoldable pub submatch : Option (Chars × Match) → List Chars
unfolding before
submatch none = []
submatch (some (s, found)) = before s found.after.rest ∷ found.groups

-- `FindStringSubmatch`: the match and its groups, or nil
unfoldable pub find_submatch : Pattern → Chars → List Chars
unfolding search_from submatch
find_submatch pattern s = submatch (search_from pattern none s)

unfoldable pub onto_some : {A : Type 0} → Option A → List A → List A
onto_some none list = list
onto_some (some a) list = a ∷ list

-- how many characters of `s` a match takes
unfoldable pub taken : Chars → Option Match → ℕ
taken s none = zero
taken s (some found) = length s - length found.after.rest

-- The matches that do not overlap, from the left; `skip` counts the characters that the last one took. No
-- pattern that the program searches for in this way matches the empty text.
unfoldable pub matches_from : Pattern → ℕ → Option ℕ → Chars → List (Chars × Match)
unfolding match_parts from_here onto_some taken
matches_from pattern skip previous [] = []
matches_from pattern (suc skip) previous (c ∷ s) = matches_from pattern skip (some (code c)) s
matches_from pattern zero previous (c ∷ s) =
    let found = match_parts pattern (record { previous = previous; rest = c ∷ s }) in
    let rest = matches_from pattern (taken (c ∷ s) found - 1) (some (code c)) s in
    onto_some (from_here (c ∷ s) found) rest

unfoldable pub submatches : List (Chars × Match) → List (List Chars)
unfolding submatch
submatches [] = []
submatches (found ∷ rest) = submatch (some found) ∷ submatches rest

-- `FindAllStringSubmatch(s, -1)`
unfoldable pub find_all_submatch : Pattern → Chars → List (List Chars)
unfolding matches_from submatches
find_all_submatch pattern s = submatches (matches_from pattern zero none s)

-- `ReplaceAllString(s, "")`, `skip` as above
unfoldable pub remove_from : Pattern → ℕ → Option ℕ → Chars → Chars
unfolding match_parts taken
remove_from pattern skip previous [] = []
remove_from pattern (suc skip) previous (c ∷ s) = remove_from pattern skip (some (code c)) s
remove_from pattern zero previous (c ∷ s) =
    let length_of =
      taken (c ∷ s) (match_parts pattern (record { previous = previous; rest = c ∷ s })) in
    let rest = remove_from pattern (length_of - 1) (some (code c)) s in
    if nat_eq length_of zero then c ∷ rest else rest

unfoldable pub remove_all : Pattern → Chars → Chars
unfolding remove_from
remove_all pattern s = remove_from pattern zero none s

-- `if m := …; len(m) > 1 { … m[1] … }`, with `other` where the condition is false; and the same with 2, 3, …
-- groups
module _ {A : Type 0} where
  unfoldable pub when1 : List Chars → A → (Chars → A) → A
  when1 (whole ∷ a ∷ more) other body = body a
  when1 m other body = other

  unfoldable pub when2 : List Chars → A → (Chars → Chars → A) → A
  when2 (whole ∷ a ∷ b ∷ more) other body = body a b
  when2 m other body = other

  unfoldable pub when3 : List Chars → A → (Chars → Chars → Chars → A) → A
  when3 (whole ∷ a ∷ b ∷ c ∷ more) other body = body a b c
  when3 m other body = other

  unfoldable pub when4 : List Chars → A → (Chars → Chars → Chars → Chars → A) → A
  when4 (whole ∷ a ∷ b ∷ c ∷ d ∷ more) other body = body a b c d
  when4 m other body = other

-- `if m := pattern.FindStringSubmatch(line); len(m) > 1 { … }`, where the body assigns to `a`; and with two groups
module _ {A : Type 0} where
  unfoldable pub on1 : Pattern → Chars → (Chars → A → A) → A → A
  unfolding find_submatch when1
  on1 pattern line body a = when1 (find_submatch pattern line) a (λ first. body first a)

  unfoldable pub on2 : Pattern → Chars → (Chars → Chars → A → A) → A → A
  unfolding find_submatch when2
  on2 pattern line body a =
      when2 (find_submatch pattern line) a (λ first second. body first second a)

  -- statements one after the other
  unfoldable pub in_order : List (A → A) → A → A
  in_order [] a = a
  in_order (statement ∷ rest) a = in_order rest (statement a)
