-- ===== src/Regexp/Groups.antt =====
-- The texts of a match: one for each group of its pattern, after the match itself.
use gcisco_exporter.Base.{
  ℕ, zero, suc, ◌≡◌, refl, ap, ◌⊎◌, inl, inr, Bool, true, false, Option, none, some, List, [], ◌∷◌,
  length, nat_eq, if◌then◌else◌, Bool-cases,
}
use Prim.Native.Char.{code}
use gcisco_exporter.Strings.{Chars, chars, before}
use gcisco_exporter.Regexp.{
  Class, Place, Shape, Pattern, Match, or_else, match_word, match_many, match_few, match_one,
  points, word_before, word_after, differ, starts_text, starts_line, is_end, match_shape,
  with_group, match_parts, word, one, many, some_of, few, either, both, maybe, begin_text,
  begin_line, end_text, boundary, plain, group,
}
use gcisco_exporter.Regexp.Find.{
  from_here, search_from, submatch, find_submatch, when1, when2, on1, on2, in_order,
}

-- the number of groups of a pattern
unfoldable pub group_count : Pattern → ℕ
group_count [] = zero
group_count (plain shape ∷ parts) = group_count parts
group_count (group shape ∷ parts) = suc (group_count parts)

module _ {A : Type 0} (P : A → Type 0) where
  -- what holds of a result, where there is one
  abbrev pub IfSome : Option A → Type 0
  IfSome none = Unit
  IfSome (some a) = P a

  IfSome-or_else :
      (first second : Option A) → IfSome first → IfSome second → IfSome (or_else first second)
  unfolding or_else
  IfSome-or_else none second p q = q
  IfSome-or_else (some a) second p q = p

  IfSome-if : (b : Bool) (o : Option A) → IfSome o → IfSome (if b then o else none)
  IfSome-if true o p = p
  IfSome-if false o p = tt

  module _ (next : Place → Option A) (h : (place : Place) → IfSome (next place)) where
    match_word-IfSome :
        (codes : List ℕ) (previous : Option ℕ) (s : Chars)
        → IfSome (match_word codes previous s next)
    unfolding match_word
    match_word-IfSome [] previous s = h (record { previous = previous; rest = s })
    match_word-IfSome (d ∷ codes) previous [] = tt
    match_word-IfSome (d ∷ codes) previous (c ∷ s) = elim (Bool-cases (nat_eq (code c) d)) [
      | inl e ↦ rw (e, IfSome, match_word) (match_word-IfSome codes (some (code c)) s)
      | inr e ↦ rw (e, IfSome, match_word) tt
    ]

    match_one-IfSome : (class : Class) (s : Chars) → IfSome (match_one class s next)
    unfolding match_one
    match_one-IfSome class [] = tt
    match_one-IfSome class (c ∷ s) =
        IfSome-if (class (code c)) (next _) (h (record { previous = some (code c); rest = s }))

    match_many-IfSome :
        (class : Class) (previous : Option ℕ) (s : Chars)
        → IfSome (match_many class previous s next)
    unfolding match_many
    match_many-IfSome class previous [] = h (record { previous = previous; rest = [] })
    match_many-IfSome class previous (c ∷ s) = elim (Bool-cases (class (code c))) [
      | inl e ↦
          rw (e, IfSome, match_many)
            (IfSome-or_else _ _ (match_many-IfSome class (some (code c)) s)
              (h (record { previous = previous; rest = c ∷ s })))
      | inr e ↦ rw (e, IfSome, match_many) (h (record { previous = previous; rest = c ∷ s }))
    ]

    match_few-IfSome :
        (class : Class) (previous : Option ℕ) (s : Chars) → IfSome (match_few class previous s next)
    unfolding match_few
    match_few-IfSome class previous [] = h (record { previous = previous; rest = [] })
    match_few-IfSome class previous (c ∷ s) = elim (Bool-cases (class (code c))) [
      | inl e ↦
          rw (e, IfSome, match_few)
            (IfSome-or_else _ _ (h (record { previous = previous; rest = c ∷ s }))
              (match_few-IfSome class (some (code c)) s))
      | inr e ↦ rw (e, IfSome, match_few) (h (record { previous = previous; rest = c ∷ s }))
    ]

  match_shape-IfSome :
      (shape : Shape) (place : Place) (next : Place → Option A)
      → ((after : Place) → IfSome (next after))
      → IfSome (match_shape shape place next)
  unfolding match_shape
  match_shape-IfSome (word text) place next h =
      match_word-IfSome next h (points (chars text)) place.previous place.rest
  match_shape-IfSome (one class) place next h = match_one-IfSome next h class place.rest
  match_shape-IfSome (many class) place next h =
      match_many-IfSome next h class place.previous place.rest
  match_shape-IfSome (some_of class) place next h =
      match_one-IfSome (λ after. match_many class after.previous after.rest next)
        (λ after. match_many-IfSome next h class after.previous after.rest) class place.rest
  match_shape-IfSome (few class) place next h =
      match_few-IfSome next h class place.previous place.rest
  match_shape-IfSome (either first second) place next h =
      IfSome-or_else _ _ (match_shape-IfSome first place next h)
        (match_shape-IfSome second place next h)
  match_shape-IfSome (both first second) place next h =
      match_shape-IfSome first place (λ after. match_shape second after next)
        (λ after. match_shape-IfSome second after next h)
  match_shape-IfSome (maybe shape) place next h =
      IfSome-or_else _ _ (match_shape-IfSome shape place next h) (h place)
  match_shape-IfSome begin_text place next h = IfSome-if (starts_text place.previous) _ (h place)
  match_shape-IfSome begin_line place next h = IfSome-if (starts_line place.previous) _ (h place)
  match_shape-IfSome end_text place next h = IfSome-if (is_end place.rest) _ (h place)
  match_shape-IfSome boundary place next h =
      IfSome-if (differ (word_before place.previous) (word_after place.rest)) _ (h place)

HasGroups : ℕ → Match → Type 0
HasGroups n found = length found.groups ≡ n

with_group-HasGroups :
    (n : ℕ) (text : Chars) (o : Option Match)
    → IfSome (HasGroups n) o
    → IfSome (HasGroups (suc n)) (with_group text o)
unfolding with_group HasGroups
with_group-HasGroups n text none h = tt
with_group-HasGroups n text (some found) h = ap (λ k. suc k) h

match_parts-HasGroups :
    (pattern : Pattern) (place : Place)
    → IfSome (HasGroups (group_count pattern)) (match_parts pattern place)
unfolding match_parts group_count HasGroups
match_parts-HasGroups [] place = refl
match_parts-HasGroups (plain shape ∷ parts) place =
    match_shape-IfSome (HasGroups (group_count parts)) shape place
      (λ after. match_parts parts after) (λ after. match_parts-HasGroups parts after)
match_parts-HasGroups (group shape ∷ parts) place =
    match_shape-IfSome (HasGroups (suc (group_count parts))) shape place
      (λ after. with_group (before place.rest after.rest) (match_parts parts after))
      (λ after. with_group-HasGroups (group_count parts) _ _ (match_parts-HasGroups parts after))

from_here-HasGroups :
    (n : ℕ) (s : Chars) (o : Option Match)
    → IfSome (HasGroups n) o
    → IfSome (λ found. HasGroups n (found.1)) (from_here s o)
unfolding from_here
from_here-HasGroups n s none h = tt
from_here-HasGroups n s (some found) h = h

search_from-HasGroups :
    (pattern : Pattern) (previous : Option ℕ) (s : Chars)
    → IfSome (λ found. HasGroups (group_count pattern) (found.1)) (search_from pattern previous s)
unfolding search_from
search_from-HasGroups pattern previous [] =
    from_here-HasGroups _ _ _ (match_parts-HasGroups pattern _)
search_from-HasGroups pattern previous (c ∷ s) =
    IfSome-or_else {A = Chars × Match} (λ found. HasGroups (group_count pattern) (found.1))
      (from_here (c ∷ s) (match_parts pattern (record { previous = previous; rest = c ∷ s })))
      (search_from pattern (some (code c)) s)
      (from_here-HasGroups _ (c ∷ s) _
        (match_parts-HasGroups pattern (record { previous = previous; rest = c ∷ s })))
      (search_from-HasGroups pattern (some (code c)) s)

submatch-length :
    (n : ℕ) (o : Option (Chars × Match))
    → IfSome (λ found. HasGroups n (found.1)) o
    → (submatch o ≡ []) ⊎ (length (submatch o) ≡ suc n)
unfolding submatch HasGroups
submatch-length n none h = inl refl
submatch-length n (some (s, found)) h = inr (ap (λ k. suc k) h)

-- `FindStringSubmatch` returns nil, or the match and one text for each group.
pub find_submatch-length :
    (pattern : Pattern) (s : Chars)
    → (find_submatch pattern s ≡ [])
      ⊎ (length (find_submatch pattern s) ≡ suc (group_count pattern))
unfolding find_submatch
find_submatch-length pattern s =
    submatch-length (group_count pattern) (search_from pattern none s)
      (search_from-HasGroups pattern none s)

-- What holds of the other branch and of every run of the body holds of the statement.
module _ {A : Type 0} (P : A → Type 0) where
  pub when1-holds :
      (m : List Chars) (other : A) (body : Chars → A)
      → P other
      → ((a : Chars) → P (body a))
      → P (when1 m other body)
  unfolding when1
  when1-holds [] other body p q = p
  when1-holds (whole ∷ []) other body p q = p
  when1-holds (whole ∷ a ∷ more) other body p q = q a

  pub when2-holds :
      (m : List Chars) (other : A) (body : Chars → Chars → A)
      → P other
      → ((a b : Chars) → P (body a b))
      → P (when2 m other body)
  unfolding when2
  when2-holds [] other body p q = p
  when2-holds (whole ∷ []) other body p q = p
  when2-holds (whole ∷ a ∷ []) other body p q = p
  when2-holds (whole ∷ a ∷ b ∷ more) other body p q = q a b

-- What the bodies keep, the statements keep.
module _ {A : Type 0} (P : A → Type 0) where
  unfoldable pub Keeps : (A → A) → Type 0
  Keeps statement = (a : A) → P a → P (statement a)

  pub on1-Keeps :
      (pattern : Pattern) (line : Chars) (body : Chars → A → A)
      → ((first : Chars) (a : A) → P a → P (body first a))
      → Keeps (on1 pattern line body)
  unfolding Keeps on1
  on1-Keeps pattern line body h a p =
      when1-holds P (find_submatch pattern line) a _ p (λ x. h x a p)

  pub on2-Keeps :
      (pattern : Pattern) (line : Chars) (body : Chars → Chars → A → A)
      → ((first second : Chars) (a : A) → P a → P (body first second a))
      → Keeps (on2 pattern line body)
  unfolding Keeps on2
  on2-Keeps pattern line body h a p =
      when2-holds P (find_submatch pattern line) a _ p (λ x y. h x y a p)

  pub nothing-Keeps : Keeps (in_order [])
  unfolding Keeps in_order
  nothing-Keeps a p = p

  pub next-Keeps :
      (statement : A → A) (rest : List (A → A))
      → Keeps statement
      → Keeps (in_order rest)
      → Keeps (in_order (statement ∷ rest))
  unfolding Keeps in_order
  next-Keeps statement rest h k a p = k (statement a) (h a p)

  -- a statement with one group, or with two, and then the rest
  pub next1-Keeps :
      (pattern : Pattern) (line : Chars) (body : Chars → A → A) (rest : List (A → A))
      → ((first : Chars) (a : A) → P a → P (body first a))
      → Keeps (in_order rest)
      → Keeps (in_order (on1 pattern line body ∷ rest))
  next1-Keeps pattern line body rest h = next-Keeps _ rest (on1-Keeps pattern line body h)

  pub next2-Keeps :
      (pattern : Pattern) (line : Chars) (body : Chars → Chars → A → A) (rest : List (A → A))
      → ((first second : Chars) (a : A) → P a → P (body first second a))
      → Keeps (in_order rest)
      → Keeps (in_order (on2 pattern line body ∷ rest))
  next2-Keeps pattern line body rest h = next-Keeps _ rest (on2-Keeps pattern line body h)
