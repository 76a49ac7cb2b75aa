-- ===== src/Float.antt =====
-- float64, which the program reads, prints, sums and compares. The type and its operations are a
-- parameter of the development.
use gcisco_exporter.Base.{
  ℕ, ◌+◌, ◌*◌, ◌-◌, ◌/◌, Bool, true, false, not, ◌&&◌, [], ◌∷◌, ltb, nat_eq, if◌then◌else◌,
}
use gcisco_exporter.Strings.{Chars}
use Prim.Native.Char.{code}

pub record Float64 (F : Type 0) : Type 0 where
  -- `float64(n)`, and the literals 0, 1, 2, …
  pub of_nat : ℕ → F
  pub plus : F → F → F
  pub times : F → F → F
  pub over : F → F → F
  -- `<` and `==`
  pub less : F → F → Bool
  pub same : F → F → Bool
  -- `strconv.ParseFloat`: the number, and whether the error is nil
  pub parse : Chars → F × Bool

module _ {F : Type 0} ⦃fl : Float64 F⦄ where
  -- `v, _ := strconv.ParseFloat(s, 64)`
  unfoldable pub value : Chars → F
  value s = (fl.parse s).0

-- the digits of a decimal number, with its value so far and whether all was digits so far
abbrev digits_value : ℕ → Bool → Chars → ℕ × Bool
digits_value n ok [] = (n, ok)
digits_value n ok (c ∷ s) =
    digits_value (n * 10 + (code c - b'0'))
      (ok && not (ltb (code c) b'0') && not (ltb b'9' (code c))) s

-- Whole numbers, for tests.
instance abbrev pub whole : Float64 ℕ
whole = record {
  of_nat = λ n. n;
  plus = ◌+◌;
  times = ◌*◌;
  over = λ m n. m / n;
  less = ltb;
  same = nat_eq;
  parse = λ s. let (n, ok) = digits_value 0 true s in if ok then (n, true) else (0, false);
}
