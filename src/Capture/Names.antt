-- ===== src/Capture/Names.antt =====
-- What the file name of a command can be.
use gcisco_exporter.Base.{
  ℕ, ◌<◌, ◌≡◌, ◌≢◌, refl, sym, ap, subst, ◌∙◌, List, [], ◌∷◌, ◌++◌, map, append_assoc, append-nil,
  length, All, arith, if◌then◌else◌, Bool-cases, inl, inr,
}
use gcisco_exporter.Capture.{is_kept, sanitize_onto, sanitize}

-- one byte of the command
clean : ℕ → ℕ
clean b = if is_kept b then b else b'_'

-- A byte of a file name that no system takes apart: ASCII, and neither a separator nor a dot.
pub record IsNameByte (b : ℕ) : Type 0 where
  pub ascii : b < 128
  pub slash : b ≢ b'/'
  pub backslash : b ≢ b'\\'
  pub dot : b ≢ b'.'
  pub colon : b ≢ b':'
  pub blank : b ≢ b' '

sanitize_onto_lem : (result s : List ℕ) → sanitize_onto result s ≡ result ++ map clean s
unfolding sanitize_onto clean
sanitize_onto_lem result [] = sym (append-nil result)
sanitize_onto_lem result (b ∷ rest) = elim (Bool-cases (is_kept b)) [
  | inl e ↦
      rw e
        (sanitize_onto_lem (result ++ b ∷ []) rest ∙ append_assoc result (b ∷ []) (map clean rest))
  | inr e ↦ rw e (
      sanitize_onto_lem (result ++ b'_' ∷ []) rest
      ∙ append_assoc result (b'_' ∷ []) (map clean rest))
]

clean-IsNameByte : (b : ℕ) → IsNameByte (clean b)
unfolding clean is_kept
clean-IsNameByte b = record {
  ascii = ground arith;
  slash = ground arith;
  backslash = ground arith;
  dot = ground arith;
  colon = ground arith;
  blank = ground arith;
}

cleaned-IsNameByte : (s : List ℕ) → All IsNameByte (map clean s)
cleaned-IsNameByte [] = tt
cleaned-IsNameByte (b ∷ s) = (clean-IsNameByte b, cleaned-IsNameByte s)

length-cleaned : (s : List ℕ) → length (map clean s) ≡ length s
length-cleaned [] = refl
length-cleaned (b ∷ s) = ground (arith, length-cleaned s)

clean_idem : (b : ℕ) → clean (clean b) ≡ clean b
unfolding clean is_kept
clean_idem b = ground arith

cleaned_idem : (s : List ℕ) → map clean (map clean s) ≡ map clean s
cleaned_idem [] = refl
cleaned_idem (b ∷ s) = cc (clean_idem b, cleaned_idem s)

sanitize-eq : (s : List ℕ) → sanitize s ≡ map clean s
unfolding sanitize
sanitize-eq s = sanitize_onto_lem [] s

-- The name of a command is as long as the command, has no byte that could lead to another directory, and
-- is its own name.
pub sanitize_lem :
    (s : List ℕ)
    → (length (sanitize s) ≡ length s)
      × All IsNameByte (sanitize s)
      × (sanitize (sanitize s) ≡ sanitize s)
sanitize_lem s = (
  ap length (sanitize-eq s) ∙ length-cleaned s,
  subst (All IsNameByte) (sym (sanitize-eq s)) (cleaned-IsNameByte s),
  sanitize-eq (sanitize s) ∙ ap (map clean) (sanitize-eq s) ∙ cleaned_idem s ∙ sym (sanitize-eq s),
)
