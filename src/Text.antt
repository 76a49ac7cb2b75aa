-- ===== src/Text.antt =====
-- Texts as code points, and `strings.ToLower` as far as a comparison with an ASCII text can tell.
use Prim.Native.Char.{code}
use gcisco_exporter.Base.{
  ℕ, ◌+◌, String, Bool, true, false, ◌&&◌, List, [], ◌∷◌, map, nat_eq, ltb, if◌then◌else◌,
}

abbrev pub codes : String → List ℕ
codes String.[] = []
codes (String.◌∷◌ letter rest) = code letter ∷ codes rest

-- The capitals A to Z, and the two letters outside ASCII whose lower case is in ASCII: the dotted I
-- and the Kelvin sign. Any other code point differs from each ASCII letter before and after.
unfoldable pub lower : ℕ → ℕ
lower c =
    if ltb 64 c && ltb c 91
    then c + 32
    else if nat_eq c 0x130
    then b'i'
    else if nat_eq c 0x212a
    then b'k'
    else c

unfoldable pub same_codes : List ℕ → List ℕ → Bool
same_codes [] [] = true
same_codes (a ∷ s) (b ∷ t) = nat_eq a b && same_codes s t
same_codes _ _ = false

-- `strings.ToLower(s) == t`, for an ASCII text `t`
unfoldable pub lower_is : String → String → Bool
unfolding lower same_codes
lower_is s t = same_codes (map lower (codes s)) (codes t)
