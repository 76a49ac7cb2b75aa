-- ===== src/Provider/Json/Braces.antt =====
-- internal/provider/json/json.go: which part of an output `parseJSON` decodes.
use gcisco_exporter.Base.{
  ℕ, zero, suc, ◌+◌, ◌-◌, ◌≡◌, ◌≢◌, refl, ap, ◌∙◌, sym, String, false, Option, some, [], ◌∷◌, ◌++◌,
  append_assoc, All, ◌⊎◌, nat_eq, arith,
}
use Prim.Native.Char.{Char, char, code}
use gcisco_exporter.Strings.{Chars, chars}
use gcisco_exporter.Provider.Json.Value.{Fields}
use gcisco_exporter.Provider.Json.Exec.{
  from_brace, onto, depth_after, balanced, braces, parse_failure, decoded, parse_json,
}

abbrev pub open_brace : Char
open_brace = char b'{' tt

abbrev pub close_brace : Char
close_brace = char b'}' tt

-- no brace
abbrev pub NoBrace : Char → Type 0
NoBrace c = (code c ≢ b'{') × (code c ≢ b'}')

-- a text in which each brace that opens has one that closes it
pub data Nested : Chars → Type 0 where
  nothing : Nested []
  other : (c : Char) (s : Chars) → NoBrace c → Nested s → Nested (c ∷ s)
  inside : (s t : Chars) → Nested s → Nested t → Nested (open_brace ∷ (s ++ close_brace ∷ t))

-- a text before what a search found
unfoldable pub onto_all : Chars → Option Chars → Option Chars
unfolding onto
onto_all [] o = o
onto_all (c ∷ s) o = onto c (onto_all s o)

onto_all-append : (s t : Chars) (o : Option Chars) → onto_all (s ++ t) o ≡ onto_all s (onto_all t o)
unfolding onto_all
onto_all-append [] t o = refl
onto_all-append (c ∷ s) t o = ap (onto c) (onto_all-append s t o)

onto_all-some : (s t : Chars) → onto_all s (some t) ≡ some (s ++ t)
unfolding onto_all onto
onto_all-some [] t = refl
onto_all-some (c ∷ s) t = rw (onto_all-some s t) refl

balanced-other :
    (c : Char) (depth : ℕ) (s : Chars)
    → NoBrace c
    → balanced depth (c ∷ s) ≡ onto c (balanced depth s)
unfolding balanced depth_after
balanced-other c depth s h =
    let opens : nat_eq (code c) b'{' ≡ false = ground (arith, h.0) in
    let closes : nat_eq (code c) b'}' ≡ false = ground (arith, h.1) in rw (opens, closes) refl

balanced-open :
    (depth : ℕ) (s : Chars)
    → balanced depth (open_brace ∷ s) ≡ onto open_brace (balanced (suc depth) s)
unfolding balanced depth_after
balanced-open depth s =
    let deeper : depth + 1 ≡ suc depth = omega arith in
    ap (λ n. onto open_brace (balanced n s)) deeper

balanced-close :
    (depth : ℕ) (s : Chars)
    → balanced (suc (suc depth)) (close_brace ∷ s) ≡ onto close_brace (balanced (suc depth) s)
unfolding balanced depth_after
balanced-close depth s =
    let higher : suc (suc depth) - 1 ≡ suc depth = omega arith in
    let positive : nat_eq (suc depth) zero ≡ false = ground arith in rw (higher, positive) refl

-- The loop passes over a nested text at the depth that it has.
balanced-Nested :
    (s : Chars)
    → Nested s
    → (depth : ℕ) (rest : Chars)
    → balanced (suc depth) (s ++ rest) ≡ onto_all s (balanced (suc depth) rest)
unfolding onto_all
balanced-Nested s nothing depth rest = refl
balanced-Nested s (other c t plain n) depth rest =
    balanced-other c (suc depth) (t ++ rest) plain ∙ ap (onto c) (balanced-Nested t n depth rest)
balanced-Nested s (inside a b na nb) depth rest =
    balanced-open (suc depth) ((a ++ close_brace ∷ b) ++ rest)
    ∙ ap (λ t. onto open_brace (balanced (suc (suc depth)) t))
        (append_assoc a (close_brace ∷ b) rest)
    ∙ ap (onto open_brace) (
        balanced-Nested a na (suc depth) (close_brace ∷ b ++ rest)
        ∙ ap (onto_all a) (
            balanced-close depth (b ++ rest)
            ∙ ap (onto close_brace) (balanced-Nested b nb depth rest))
        ∙ sym (onto_all-append a (close_brace ∷ b) (balanced (suc depth) rest)))

braces-Nested :
    (body rest : Chars)
    → Nested body
    → braces (open_brace ∷ (body ++ close_brace ∷ rest)) ≡ open_brace ∷ (body ++ close_brace ∷ [])
unfolding braces
braces-Nested body rest n =
    rw
      (
        balanced-open zero (body ++ close_brace ∷ rest)
            ∙ ap (onto open_brace) (
                balanced-Nested body n zero (close_brace ∷ rest)
                ∙ onto_all-some body (close_brace ∷ [])),
        braces,
      )
      refl

from_brace-append :
    (before s : Chars)
    → All (λ c. code c ≢ b'{') before
    → from_brace (before ++ open_brace ∷ s) ≡ open_brace ∷ s
unfolding from_brace
from_brace-append [] s h = refl
from_brace-append (c ∷ before) s h =
    let plain : nat_eq (code c) b'{' ≡ false = ground (arith, h.0) in
    rw plain (from_brace-append before s (h.1))

from_brace-none : (s : Chars) → All (λ c. code c ≢ b'{') s → from_brace s ≡ []
unfolding from_brace
from_brace-none [] h = refl
from_brace-none (c ∷ s) h =
    let plain : nat_eq (code c) b'{' ≡ false = ground (arith, h.0) in
    rw plain (from_brace-none s (h.1))

module _ {F : Type 0} (decode : Chars → String ⊎ Fields F) where
  -- Of an output with an object between other texts, where no brace opens before the object and the braces
  -- inside it match, `parseJSON` decodes the object, to its last brace and not beyond.
  pub parse_json-Nested :
      (raw : String) (before body after : Chars)
      → chars raw ≡ before ++ open_brace ∷ (body ++ close_brace ∷ after)
      → All (λ c. code c ≢ b'{') before
      → Nested body
      → parse_json decode raw ≡ decoded raw (decode (open_brace ∷ (body ++ close_brace ∷ [])))
  unfolding parse_json
  parse_json-Nested raw before body after whole plain nested =
      let found =
        ap from_brace whole ∙ from_brace-append before (body ++ close_brace ∷ after) plain in
      rw (found, parse_json) (ap (λ t. decoded raw (decode t)) (braces-Nested body after nested))

  pub parse_json-none :
      (raw : String)
      → All (λ c. code c ≢ b'{') (chars raw)
      → parse_json decode raw ≡ parse_failure raw "no JSON found"
  unfolding parse_json
  parse_json-none raw h = rw (from_brace-none (chars raw) h, parse_json) refl
