-- ===== src/Provider/Output/Stable.antt =====
-- What is clean stays as it is.
use gcisco_exporter.Base.{
  ◌≡◌, ◌≢◌, refl, ap, ◌∙◌, List, [], ◌∷◌, ◌++◌, All, All-append, nat_eq, Bool-cases, inl, inr,
  arith,
}
use Prim.Native.Char.{Char, code}
use gcisco_exporter.Text.{same_codes}
use gcisco_exporter.Strings.{Chars, onto_first, split_lines, trim_left, trim_end, trim_space}
use gcisco_exporter.Provider.Output.{
  newline, without_returns, is_skipped, keep_lines, join_lines, clean_output,
}

-- no carriage return
abbrev pub NoReturn : Char → Type 0
NoReturn c = code c ≢ 13

-- neither a carriage return nor a line feed
abbrev pub IsPlain : Chars → Type 0
IsPlain l = All (λ c. (code c ≢ 13) × (code c ≢ 10)) l

without_returns-NoReturn : (s : Chars) → All NoReturn (without_returns s)
unfolding without_returns
without_returns-NoReturn [] = tt
without_returns-NoReturn (c ∷ s) = elim (Bool-cases (nat_eq (code c) 13)) [
  | inl e ↦ rw e (without_returns-NoReturn s)
  | inr e ↦ rw e ((ground (arith, e)), without_returns-NoReturn s)
]

without_returns_id : (s : Chars) → All NoReturn s → without_returns s ≡ s
unfolding without_returns
without_returns_id [] h = refl
without_returns_id (c ∷ s) h = elim (Bool-cases (nat_eq (code c) 13)) [
  | inl e ↦ absurd (h.0 (ground (arith, e)))
  | inr e ↦ rw e (ap (λ t. c ∷ t) (without_returns_id s h.1))
]

onto_first-IsPlain :
    (c : Char) (lines : List Chars)
    → code c ≢ 13
    → code c ≢ 10
    → All IsPlain lines
    → All IsPlain (onto_first c lines)
unfolding onto_first
onto_first-IsPlain c [] r n h = (((r, n), tt), tt)
onto_first-IsPlain c (line ∷ lines) r n h = (((r, n), h.0), h.1)

split_lines-IsPlain : (s : Chars) → All NoReturn s → All IsPlain (split_lines s)
unfolding split_lines
split_lines-IsPlain [] h = (tt, tt)
split_lines-IsPlain (c ∷ s) h = elim (Bool-cases (nat_eq (code c) 10)) [
  | inl e ↦ rw e (tt, split_lines-IsPlain s h.1)
  | inr e ↦
      rw e
        (onto_first-IsPlain c (split_lines s) h.0 (ground (arith, e)) (split_lines-IsPlain s h.1))
]

split_lines-plain : (line : Chars) → IsPlain line → split_lines line ≡ line ∷ []
unfolding split_lines onto_first
split_lines-plain [] h = refl
split_lines-plain (c ∷ line) h = elim (Bool-cases (nat_eq (code c) 10)) [
  | inl e ↦ absurd ((h.0).1 (ground (arith, e)))
  | inr e ↦ rw e (ap (onto_first c) (split_lines-plain line h.1))
]

split_lines-append :
    (line s : Chars) → IsPlain line → split_lines (line ++ newline ∷ s) ≡ line ∷ split_lines s
unfolding split_lines onto_first
split_lines-append [] s h = refl
split_lines-append (c ∷ line) s h = elim (Bool-cases (nat_eq (code c) 10)) [
  | inl e ↦ absurd ((h.0).1 (ground (arith, e)))
  | inr e ↦ rw e (ap (onto_first c) (split_lines-append line s h.1))
]

split_lines-join_lines :
    (line : Chars) (lines : List Chars)
    → All IsPlain (line ∷ lines)
    → split_lines (join_lines (line ∷ lines)) ≡ line ∷ lines
unfolding join_lines
split_lines-join_lines line [] h = split_lines-plain line h.0
split_lines-join_lines line (next ∷ lines) h =
    split_lines-append line (join_lines (next ∷ lines)) h.0
    ∙ ap (λ ls. line ∷ ls) (split_lines-join_lines next lines h.1)

keep_lines-All :
    (P : Chars → Type 0) (cmd : Chars) (lines : List Chars)
    → All P lines
    → All P (keep_lines cmd lines)
unfolding keep_lines
keep_lines-All P cmd [] h = tt
keep_lines-All P cmd (line ∷ lines) h = elim (Bool-cases (is_skipped cmd (trim_space line))) [
  | inl e ↦ rw e (keep_lines-All P cmd lines h.1)
  | inr e ↦ rw e (h.0, keep_lines-All P cmd lines h.1)
]

keep_lines_idem :
    (cmd : Chars) (lines : List Chars)
    → keep_lines cmd (keep_lines cmd lines) ≡ keep_lines cmd lines
unfolding keep_lines
keep_lines_idem cmd [] = refl
keep_lines_idem cmd (line ∷ lines) = elim (Bool-cases (is_skipped cmd (trim_space line))) [
  | inl e ↦ rw e (keep_lines_idem cmd lines)
  | inr e ↦ rw (e, keep_lines, e) (ap (λ ls. line ∷ ls) (keep_lines_idem cmd lines))
]

plain-NoReturn : (line : Chars) → IsPlain line → All NoReturn line
plain-NoReturn [] h = tt
plain-NoReturn (c ∷ line) h = ((h.0).0, plain-NoReturn line h.1)

join_lines-NoReturn : (lines : List Chars) → All IsPlain lines → All NoReturn (join_lines lines)
unfolding join_lines
join_lines-NoReturn [] h = tt
join_lines-NoReturn (line ∷ []) h = plain-NoReturn line h.0
join_lines-NoReturn (line ∷ next ∷ lines) h =
    All-append NoReturn line (newline ∷ join_lines (next ∷ lines)) (plain-NoReturn line h.0)
      (ground arith, join_lines-NoReturn (next ∷ lines) h.1)

-- what was kept is kept again
rejoin :
    (cmd : Chars) (kept : List Chars)
    → All IsPlain kept
    → keep_lines cmd kept ≡ kept
    → join_lines (keep_lines cmd (split_lines (join_lines kept))) ≡ join_lines kept
unfolding keep_lines split_lines join_lines is_skipped trim_space trim_left trim_end same_codes
rejoin cmd [] h same = refl
rejoin cmd (line ∷ lines) h same =
    ap (λ ls. join_lines (keep_lines cmd ls)) (split_lines-join_lines line lines h)
    ∙ ap join_lines same

-- `cleanOutput` leaves a text alone that it has cleaned of the same command, and leaves no carriage return.
pub clean_output_lem :
    (s cmd : Chars)
    → (clean_output (clean_output s cmd) cmd ≡ clean_output s cmd)
      × All NoReturn (clean_output s cmd)
unfolding clean_output
clean_output_lem s cmd =
    let plain =
      keep_lines-All IsPlain cmd (split_lines (without_returns s))
        (split_lines-IsPlain (without_returns s) (without_returns-NoReturn s)) in
    let kept = keep_lines cmd (split_lines (without_returns s)) in
    let clear = join_lines-NoReturn kept plain in
    (
      ap (λ t. join_lines (keep_lines cmd (split_lines t)))
            (without_returns_id (join_lines kept) clear)
          ∙ rejoin cmd kept plain (keep_lines_idem cmd (split_lines (without_returns s))),
      clear,
    )
