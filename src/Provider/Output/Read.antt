-- ===== src/Provider/Output/Read.antt =====
-- internal/provider/ssh/client.go: `readOutput`, on what the reads of the shell's output give.
use gcisco_exporter.Base.{
  ◌≡◌, refl, sym, ap, ◌∙◌, subst, some-injective, append-nil, append_assoc, Bool, true, false, not,
  ◌&&◌, Option, none, some, List, [], ◌∷◌, ◌++◌, ◌⊎◌, inl, inr, if◌then◌else◌,
}
use mathlib.Core.Sum.{inr-injective}
use gcisco_exporter.Error.{Error}
use gcisco_exporter.Strings.{Chars, same_chars, occurs}
use gcisco_exporter.Regexp.{Pattern, word, one, maybe, some_of, is_any, is_blank, end_text, plain}
use gcisco_exporter.Regexp.Find.{find_submatch}
use gcisco_exporter.Provider.Output.{clean_output}
use gcisco_exporter.Base.{map}
use Prim.Native.Char.{code}

-- `.+#\s?$`
abbrev pub prompt : Pattern
prompt =
    plain (some_of is_any) ∷ plain (word "#") ∷ plain (maybe (one is_blank)) ∷ plain end_text ∷ []

-- `strings.Contains(s, cmd) && promptRe.MatchString(s)`
unfoldable pub is_complete : Chars → Chars → Bool
is_complete cmd s =
    occurs (map code s) (map code cmd)
    && not (elim (find_submatch prompt s) [ [] ↦ true | text ∷ m ↦ false ])

-- `return cleanOutput(s, cmd), nil`, or the error
unfoldable pub output_or : Chars → Chars → Error → Error ⊎ Chars
output_or cmd s err = if is_complete cmd s then inr (clean_output s cmd) else inl err

-- what follows a read that did not complete the output
unfoldable pub after_read :
    Chars → Chars → Option Error → Option (Error ⊎ Chars) → Option (Error ⊎ Chars)
after_read cmd s none rest = rest
after_read cmd s (some err) rest = some (output_or cmd s err)

-- The loop, on the buffer so far and what each `Read` gives, the text and the error. Where there is no more to
-- read it waits: `none`.
unfoldable pub read_output : Chars → Chars → List (Chars × Option Error) → Option (Error ⊎ Chars)
read_output cmd buf [] = none
read_output cmd buf ((text, err) ∷ reads) =
    let s = buf ++ text in
    let rest = read_output cmd s reads in
    if not (same_chars text []) && is_complete cmd s
    then some (inr (clean_output s cmd))
    else after_read cmd s err rest

-- the texts that reads give, one after another
unfoldable pub text_read : List (Chars × Option Error) → Chars
text_read [] = []
text_read ((text, err) ∷ reads) = text ++ text_read reads

-- Reads after which the loop goes on, from the buffer `buf`: none fails, and none that gives a text completes
-- the output.
abbrev pub GoesOn : Chars → Chars → List (Chars × Option Error) → Type 0
GoesOn cmd buf [] = Unit
GoesOn cmd buf ((text, err) ∷ reads) =
    (err ≡ none)
    × ((not (same_chars text []) && is_complete cmd (buf ++ text)) ≡ false)
    × GoesOn cmd (buf ++ text) reads

-- An output that was cleaned out of the text up to the first read that ends the loop.
abbrev pub IsCleaned : Chars → Chars → List (Chars × Option Error) → Chars → Type 0
IsCleaned cmd buf reads out =
    (pre : List (Chars × Option Error)) × (text : Chars) × (err : Option Error) × (post : List
      (Chars × Option Error))
    × (reads ≡ pre ++ (text, err) ∷ post)
    × GoesOn cmd buf pre
    × (is_complete cmd ((buf ++ text_read pre) ++ text) ≡ true)
    × (out ≡ clean_output ((buf ++ text_read pre) ++ text) cmd)

output_or-eq-inr :
    (cmd s out : Chars) (err : Error)
    → output_or cmd s err ≡ inr out
    → (is_complete cmd s ≡ true) × (out ≡ clean_output s cmd)
unfolding output_or
output_or-eq-inr cmd s out err e = go (is_complete cmd s) refl e
  where
    go :
        (b : Bool)
        → is_complete cmd s ≡ b
        → ◌≡◌ {A = Error ⊎ Chars} (if b then inr (clean_output s cmd) else inl err) (inr out)
        → (is_complete cmd s ≡ true) × (out ≡ clean_output s cmd)
    go true p e = (p, sym (inr-injective _ _ e))
    go false p e = absurd cc

module _ (cmd buf : Chars) (text : Chars) (reads : List (Chars × Option Error)) (out : Chars) where
  -- the read itself ends the loop
  ends_here :
      (err : Option Error)
      → is_complete cmd (buf ++ text) ≡ true
      → out ≡ clean_output (buf ++ text) cmd
      → IsCleaned cmd buf ((text, err) ∷ reads) out
  unfolding text_read
  ends_here err c e =
      let s = append-nil buf in
      (
        [],
        text,
        err,
        reads,
        refl,
        tt,
        subst (λ b. is_complete cmd (b ++ text) ≡ true) (sym s) c,
        e ∙ ap (λ b. clean_output (b ++ text) cmd) (sym s),
      )

  -- a later one does
  ends_later :
      (not (same_chars text []) && is_complete cmd (buf ++ text)) ≡ false
      → IsCleaned cmd (buf ++ text) reads out
      → IsCleaned cmd buf ((text, none) ∷ reads) out
  unfolding text_read
  ends_later go (pre, last, err, post, split, before, c, e) =
      let s = append_assoc buf text (text_read pre) in
      (
        (text, none) ∷ pre,
        last,
        err,
        post,
        ap (λ l. (text, none) ∷ l) split,
        (refl, go, before),
        subst (λ b. is_complete cmd (b ++ last) ≡ true) s c,
        e ∙ ap (λ b. clean_output (b ++ last) cmd) s,
      )

  after_read-IsCleaned :
      (err : Option Error)
      → (not (same_chars text []) && is_complete cmd (buf ++ text)) ≡ false
      → after_read cmd (buf ++ text) err (read_output cmd (buf ++ text) reads) ≡ some (inr out)
      → (read_output cmd (buf ++ text) reads ≡ some (inr out)
          → IsCleaned cmd (buf ++ text) reads out)
      → IsCleaned cmd buf ((text, err) ∷ reads) out
  unfolding after_read
  after_read-IsCleaned none go e ih = ends_later go (ih e)
  after_read-IsCleaned (some err) go e ih =
      let (c, same) = output_or-eq-inr cmd (buf ++ text) out err (some-injective _ _ e) in
      ends_here (some err) c same

  read-IsCleaned :
      (err : Option Error) (b c : Bool)
      → not (same_chars text []) ≡ b
      → is_complete cmd (buf ++ text) ≡ c
      → (if b && c
          then some (inr (clean_output (buf ++ text) cmd))
          else after_read cmd (buf ++ text) err (read_output cmd (buf ++ text) reads))
        ≡ some (inr out)
      → (read_output cmd (buf ++ text) reads ≡ some (inr out)
          → IsCleaned cmd (buf ++ text) reads out)
      → IsCleaned cmd buf ((text, err) ∷ reads) out
  read-IsCleaned err true true p q e ih =
      ends_here err q (sym (inr-injective _ _ (some-injective _ _ e)))
  read-IsCleaned err true false p q e ih = after_read-IsCleaned err (rw (p, q) refl) e ih
  read-IsCleaned err false c p q e ih = after_read-IsCleaned err (rw p refl) e ih

-- An output that `readOutput` returns without an error is what `cleanOutput` leaves of all the text that was
-- read up to some read; that text contains the command and ends in a prompt, no read before failed, and none
-- before that gave a text had completed the output.
pub read_output-IsCleaned :
    (cmd buf : Chars) (reads : List (Chars × Option Error)) (out : Chars)
    → read_output cmd buf reads ≡ some (inr out)
    → IsCleaned cmd buf reads out
unfolding read_output
read_output-IsCleaned cmd buf [] out h = absurd cc
read_output-IsCleaned cmd buf ((text, err) ∷ reads) out h =
    read-IsCleaned cmd buf text reads out err (not (same_chars text []))
      (is_complete cmd (buf ++ text)) refl refl h
      (read_output-IsCleaned cmd (buf ++ text) reads out)
