-- ===== src/Strings.antt =====
-- What the program uses of Go's package `strings`. A Go string is the list of its characters.
use Prim.Native.Char.{Char, code}
use gcisco_exporter.Base.{
  ℕ, zero, suc, ◌-◌, String, Bool, true, false, ◌&&◌, ◌||◌, not, List, [], ◌∷◌, map, ltb, nat_eq,
  if◌then◌else◌, length,
}
use gcisco_exporter.Text.{lower, same_codes}

abbrev pub Chars : Type 0
Chars = List Char

abbrev pub chars : String → Chars
chars String.[] = []
chars (String.◌∷◌ c s) = c ∷ chars s

abbrev pub text_of : Chars → String
text_of [] = String.[]
text_of (c ∷ s) = String.◌∷◌ c (text_of s)

-- `s == t`
abbrev pub same_chars : Chars → Chars → Bool
same_chars s t = same_codes (map code s) (map code t)

-- `unicode.IsSpace`
unfoldable pub is_space : ℕ → Bool
is_space c =
    (not (ltb c 9) && not (ltb 13 c))
    || nat_eq c 32
    || nat_eq c 0x85
    || nat_eq c 0xa0
    || nat_eq c 0x1680
    || (not (ltb c 0x2000) && not (ltb 0x200a c))
    || nat_eq c 0x2028
    || nat_eq c 0x2029
    || nat_eq c 0x202f
    || nat_eq c 0x205f
    || nat_eq c 0x3000

unfoldable pub onto_first : Char → List Chars → List Chars
onto_first c [] = (c ∷ []) ∷ []
onto_first c (line ∷ lines) = (c ∷ line) ∷ lines

-- `strings.Split(s, "\n")`
unfoldable pub split_lines : Chars → List Chars
unfolding onto_first
split_lines [] = [] ∷ []
split_lines (c ∷ s) =
    let rest = split_lines s in if nat_eq (code c) 10 then [] ∷ rest else onto_first c rest

unfoldable pub trim_left : Chars → Chars
trim_left [] = []
trim_left (c ∷ s) = let rest = trim_left s in if is_space (code c) then rest else c ∷ s

-- drops the characters of a class from the end
unfoldable pub trim_end : (ℕ → Bool) → Chars → Chars
trim_end p [] = []
trim_end p (c ∷ s) = elim (trim_end p s) [
  | [] ↦ if p (code c) then [] else c ∷ []
  | x ∷ rest ↦ c ∷ x ∷ rest
]

-- `strings.TrimSpace`
unfoldable pub trim_space : Chars → Chars
unfolding is_space trim_left trim_end
trim_space s = trim_end is_space (trim_left s)

-- `strings.TrimRight(s, ",")`
unfoldable pub trim_commas : Chars → Chars
unfolding trim_end
trim_commas s = trim_end (λ c. nat_eq c b',') s

-- a prefix of a list of code points
unfoldable pub begins : List ℕ → List ℕ → Bool
begins s [] = true
begins [] (d ∷ t) = false
begins (c ∷ s) (d ∷ t) = nat_eq c d && begins s t

-- `strings.HasPrefix`
unfoldable pub has_prefix : Chars → String → Bool
unfolding begins
has_prefix s t = begins (map code s) (map code (chars t))

unfoldable pub occurs : List ℕ → List ℕ → Bool
unfolding begins
occurs [] t = begins [] t
occurs (c ∷ s) t = begins (c ∷ s) t || occurs s t

-- `strings.Contains`
unfoldable pub contains : Chars → String → Bool
unfolding occurs
contains s t = occurs (map code s) (map code (chars t))

-- `strings.Contains(strings.ToLower(s), t)`, for an ASCII text `t`
unfoldable pub contains_lower : Chars → String → Bool
unfolding occurs lower
contains_lower s t = occurs (map (λ c. lower (code c)) s) (map code (chars t))

-- `s[:n]` and `s[n:]`, in characters
unfoldable pub take : ℕ → Chars → Chars
take zero s = []
take (suc n) [] = []
take (suc n) (c ∷ s) = c ∷ take n s

unfoldable pub drop : ℕ → Chars → Chars
drop zero s = s
drop (suc n) [] = []
drop (suc n) (c ∷ s) = drop n s

-- the part of `s` before its suffix `rest`
unfoldable pub before : Chars → Chars → Chars
unfolding take
before s rest = take (length s - length rest) s
