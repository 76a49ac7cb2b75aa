-- ===== src/Provider/Json/Exec.antt =====
-- internal/provider/json/json.go: `parseJSON`, `exec`, the readers of fields, and the tables of an answer.
-- `decode` is `json.Unmarshal` into a map: the error's text, or the object's fields. A failed type assertion
-- panics: `none`.
use gcisco_exporter.Base.{
  ℕ, zero, ◌+◌, ◌-◌, ◌&&◌, String, Option, none, some, List, [], ◌∷◌, ◌⊎◌, inl, inr, nat_eq,
  if◌then◌else◌,
}
use Prim.Native.Char.{Char, code}
use gcisco_exporter.Error.{Error, Answer, panics, returns}
use gcisco_exporter.Strings.{Chars, chars}
use gcisco_exporter.Float.{Float64}
use gcisco_exporter.Provider.Json.Value.{
  Json, Fields, number, text, array, object, field, end_of_object, items, find,
}

-- the text from its first `{`
unfoldable pub from_brace : Chars → Chars
from_brace [] = []
from_brace (c ∷ s) = let rest = from_brace s in if nat_eq (code c) b'{' then c ∷ s else rest

unfoldable pub onto : Char → Option Chars → Option Chars
onto c none = none
onto c (some s) = some (c ∷ s)

-- `depth` after a character
unfoldable pub depth_after : ℕ → Char → ℕ
depth_after depth c =
    if nat_eq (code c) b'{' then depth + 1 else if nat_eq (code c) b'}' then depth - 1 else depth

-- The loop over the text from its first `{`: the text to the `}` at which `depth` is zero again.
unfoldable pub balanced : ℕ → Chars → Option Chars
unfolding onto depth_after
balanced depth [] = none
balanced depth (c ∷ s) =
    let rest = balanced (depth_after depth c) s in
    if nat_eq (code c) b'}' && nat_eq (depth_after depth c) zero then some (c ∷ []) else onto c rest

-- `raw[start:end]`, where `end` stays `start` if no `}` closes the object
unfoldable pub braces : Chars → Chars
unfolding balanced
braces s = elim (balanced zero s) [ none ↦ [] | some t ↦ t ]

module _ {F : Type 0} where
  unfoldable pub parse_failure : String → String → Fields F
  parse_failure raw problem =
      field "raw" (text raw) (field "parse_error" (text problem) end_of_object)

  -- `json.Unmarshal` of a text, with `parse_failure` for an error
  unfoldable pub decoded : String → String ⊎ Fields F → Fields F
  unfolding parse_failure
  decoded raw (inl problem) = parse_failure raw problem
  decoded raw (inr fields) = fields

  unfoldable pub parse_json : (Chars → String ⊎ Fields F) → String → Fields F
  unfolding from_brace braces decoded parse_failure
  parse_json decode raw = elim (from_brace (chars raw)) [
    | [] ↦ parse_failure raw "no JSON found"
    | c ∷ s ↦ decoded raw (decode (braces (c ∷ s)))
  ]

  -- `p.exec`, on what `p.client.Execute` returned
  unfoldable pub exec : (Chars → String ⊎ Fields F) → Error ⊎ String → Error ⊎ Fields F
  unfolding parse_json
  exec decode (inl err) = inl err
  exec decode (inr output) = inr (parse_json decode output)

  unfoldable pub string_of : Option (Json F) → String
  string_of (some (text s)) = s
  string_of other = ""

  unfoldable pub string_field : Fields F → String → String
  unfolding find string_of
  string_field fields key = string_of (find key fields)

  -- the rows of an object: `x["ROW"].([]interface{})`, where no list is no rows
  unfoldable pub rows_of : Option (Json F) → List (Json F)
  unfolding items
  rows_of (some (array vs)) = items vs
  rows_of other = []

  -- `table.(map[string]interface{})["ROW"].([]interface{})`, which panics at a table that is no object
  unfoldable pub table_rows : String → Option (Json F) → Option (List (Json F))
  unfolding find rows_of
  table_rows row none = some []
  table_rows row (some (object fields)) = some (rows_of (find row fields))
  table_rows row (some other) = none

-- `if err == nil { … }`
unfoldable pub if_answered : {F A : Type 0} → Error ⊎ Fields F → (Fields F → A → A) → A → A
if_answered (inl err) body a = a
if_answered (inr fields) body a = body fields a

-- `if err != nil { … }` and what follows it
unfoldable pub on_answer :
    {F A : Type 0} → Error ⊎ Fields F → (Error → Answer A) → (Fields F → Answer A) → Answer A
on_answer (inl err) failed body = failed err
on_answer (inr fields) failed body = body fields

-- what a method that returns no error returns, or the panic
unfoldable pub answer_of : {A : Type 0} → Option A → Answer A
answer_of none = panics
answer_of (some a) = returns a none

module _ {F : Type 0} ⦃fl : Float64 F⦄ where
  unfoldable pub num_of : Option (Json F) → F
  num_of (some (number n)) = n
  num_of (some (text s)) =
      let (n, is_number) = fl.parse (chars s) in if is_number then n else fl.of_nat zero
  num_of other = fl.of_nat zero

  unfoldable pub num_field : Fields F → String → F
  unfolding find num_of
  num_field fields key = num_of (find key fields)

  unfoldable pub parse_uptime : Fields F → F
  unfolding num_field
  parse_uptime fields =
      let days = num_field fields "kern_uptm_days" in
      let hours = num_field fields "kern_uptm_hrs" in
      let mins = num_field fields "kern_uptm_mins" in
      let secs = num_field fields "kern_uptm_secs" in
      fl.plus
        (fl.plus (fl.plus (fl.times days (fl.of_nat 86400)) (fl.times hours (fl.of_nat 3600)))
          (fl.times mins (fl.of_nat 60)))
        secs
