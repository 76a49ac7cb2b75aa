-- ===== src/Regexp.antt =====
-- What the program uses of Go's package `regexp`: a pattern, its leftmost match in which an earlier
-- choice is preferred to a later one, and the texts of its groups. No pattern of the program has a group
-- under a repetition, an option or an alternative, and it repeats only classes of characters, so a
-- pattern here is a sequence of parts, some of which are groups.
pub mod Find
pub mod Groups
use Prim.Native.Char.{Char, code}
use gcisco_exporter.Base.{
  ℕ, zero, suc, ◌-◌, String, Bool, true, false, ◌&&◌, ◌||◌, not, Option, none, some, List, [], ◌∷◌,
  ltb, nat_eq, if◌then◌else◌, length,
}
use gcisco_exporter.Strings.{Chars, chars, before, drop}

-- a class of characters
abbrev pub Class : Type 0
Class = ℕ → Bool

-- `\d`
unfoldable pub is_digit : Class
is_digit c = not (ltb c b'0') && not (ltb b'9' c)

-- `\s`
unfoldable pub is_blank : Class
is_blank c = nat_eq c 9 || nat_eq c 10 || nat_eq c 12 || nat_eq c 13 || nat_eq c 32

-- `\S`
unfoldable pub is_solid : Class
unfolding is_blank
is_solid c = not (is_blank c)

-- `.`
unfoldable pub is_any : Class
is_any c = not (nat_eq c 10)

-- a character of a word, of which `\b` marks the ends
unfoldable pub is_word : Class
unfolding is_digit
is_word c =
    is_digit c
    || (not (ltb c b'a') && not (ltb b'z' c))
    || (not (ltb c b'A') && not (ltb b'Z' c))
    || nat_eq c b'_'

-- `[…]`, with the characters listed
unfoldable pub in_set : List ℕ → Class
in_set [] c = false
in_set (d ∷ set) c = nat_eq c d || in_set set c

-- `[^…]`
unfoldable pub not_in_set : List ℕ → Class
unfolding in_set
not_in_set set c = not (in_set set c)

-- a place in the text: the character before it, and what follows it
pub record Place : Type 0 where
  pub previous : Option ℕ
  pub rest : Chars

pub data Shape : Type 0 where
  -- the characters of a text
  word : String → Shape
  -- one character of a class
  one : Class → Shape
  -- `c*`, `c+`, and `c*?`
  many : Class → Shape
  some_of : Class → Shape
  few : Class → Shape
  -- `a|b`, and `ab`
  either : Shape → Shape → Shape
  both : Shape → Shape → Shape
  -- `(?:a)?`
  maybe : Shape → Shape
  -- `^`, `^` under `(?m)`, and `$`
  begin_text : Shape
  begin_line : Shape
  end_text : Shape
  -- `\b`
  boundary : Shape

pub data Part : Type 0 where
  plain : Shape → Part
  group : Shape → Part

abbrev pub Pattern : Type 0
Pattern = List Part

unfoldable pub or_else : {A : Type 0} → Option A → Option A → Option A
or_else none second = second
or_else (some a) second = some a

module _ {A : Type 0} where
  unfoldable pub match_word : List ℕ → Option ℕ → Chars → (Place → Option A) → Option A
  match_word [] previous s next = next (record { previous = previous; rest = s })
  match_word (d ∷ codes) previous [] next = none
  match_word (d ∷ codes) previous (c ∷ s) next = elim (nat_eq (code c) d) [
    | true ↦ match_word codes (some (code c)) s next
    | false ↦ none
  ]

  -- as many characters of a class as the rest of the pattern allows
  unfoldable pub match_many : Class → Option ℕ → Chars → (Place → Option A) → Option A
  unfolding or_else
  match_many class previous [] next = next (record { previous = previous; rest = [] })
  match_many class previous (c ∷ s) next = elim (class (code c)) [
    | true ↦
        or_else (match_many class (some (code c)) s next)
          (next (record { previous = previous; rest = c ∷ s }))
    | false ↦ next (record { previous = previous; rest = c ∷ s })
  ]

  -- as few characters of a class as the rest of the pattern allows
  unfoldable pub match_few : Class → Option ℕ → Chars → (Place → Option A) → Option A
  unfolding or_else
  match_few class previous [] next = next (record { previous = previous; rest = [] })
  match_few class previous (c ∷ s) next = elim (class (code c)) [
    | true ↦
        or_else (next (record { previous = previous; rest = c ∷ s }))
          (match_few class (some (code c)) s next)
    | false ↦ next (record { previous = previous; rest = c ∷ s })
  ]

  unfoldable pub match_one : Class → Chars → (Place → Option A) → Option A
  match_one class [] next = none
  match_one class (c ∷ s) next =
      if class (code c) then next (record { previous = some (code c); rest = s }) else none

unfoldable pub word_before : Option ℕ → Bool
unfolding is_word
word_before none = false
word_before (some c) = is_word c

unfoldable pub word_after : Chars → Bool
unfolding is_word
word_after [] = false
word_after (c ∷ s) = is_word (code c)

unfoldable pub differ : Bool → Bool → Bool
differ true b = not b
differ false b = b

unfoldable pub starts_text : Option ℕ → Bool
starts_text none = true
starts_text (some c) = false

unfoldable pub starts_line : Option ℕ → Bool
starts_line none = true
starts_line (some c) = nat_eq c 10

unfoldable pub is_end : Chars → Bool
is_end [] = true
is_end (c ∷ s) = false

-- the code points of a text
unfoldable pub points : Chars → List ℕ
points [] = []
points (c ∷ s) = code c ∷ points s

module _ {A : Type 0} where
  -- `next` says how the rest of the pattern matches from a place
  unfoldable pub match_shape : Shape → Place → (Place → Option A) → Option A
  unfolding points match_word match_one match_many match_few or_else word_before word_after differ
      starts_text starts_line is_end
  match_shape (word text) place next =
      match_word (points (chars text)) place.previous place.rest next
  match_shape (one class) place next = match_one class place.rest next
  match_shape (many class) place next = match_many class place.previous place.rest next
  match_shape (some_of class) place next =
      match_one class place.rest (λ after. match_many class after.previous after.rest next)
  match_shape (few class) place next = match_few class place.previous place.rest next
  match_shape (either first second) place next =
      or_else (match_shape first place next) (match_shape second place next)
  match_shape (both first second) place next =
      match_shape first place (λ after. match_shape second after next)
  match_shape (maybe shape) place next = or_else (match_shape shape place next) (next place)
  match_shape begin_text place next = if starts_text place.previous then next place else none
  match_shape begin_line place next = if starts_line place.previous then next place else none
  match_shape end_text place next = if is_end place.rest then next place else none
  match_shape boundary place next =
      if differ (word_before place.previous) (word_after place.rest) then next place else none

-- a match: where it ends, and the texts of the groups
pub record Match : Type 0 where
  pub after : Place
  pub groups : List Chars

unfoldable pub with_group : Chars → Option Match → Option Match
with_group text none = none
with_group text (some found) = some (record found { groups = text ∷ found.groups })

unfoldable pub match_parts : Pattern → Place → Option Match
unfolding match_shape with_group before
match_parts [] place = some (record { after = place; groups = [] })
match_parts (plain shape ∷ parts) place = match_shape shape place (λ after. match_parts parts after)
match_parts (group shape ∷ parts) place =
    match_shape shape place
      (λ after. with_group (before place.rest after.rest) (match_parts parts after))
