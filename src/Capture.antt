-- ===== src/Capture.antt =====
-- internal/debugcapture/debugcapture.go: `sanitize`, which makes a file name of a command. A Go string is
-- a list of bytes here, each below 256.
pub mod Names
use gcisco_exporter.Base.{
  ℕ, ◌+◌, ◌≤◌, ◌≡◌, ◌≢◌, refl, Bool, true, false, ◌&&◌, ◌||◌, not, List, [], ◌∷◌, ◌++◌, length, All,
  ltb, nat_eq, arith, if◌then◌else◌, Bool-cases, inl, inr,
}

-- the condition of the loop
unfoldable pub is_kept : ℕ → Bool
is_kept b =
    (not (ltb b b'a') && not (ltb b'z' b))
    || (not (ltb b b'A') && not (ltb b'Z' b))
    || (not (ltb b b'0') && not (ltb b'9' b))
    || nat_eq b b'-'
    || nat_eq b b'_'

-- the loop, with the bytes that were appended so far
unfoldable pub sanitize_onto : List ℕ → List ℕ → List ℕ
sanitize_onto result [] = result
sanitize_onto result (b ∷ rest) =
    if is_kept b
    then sanitize_onto (result ++ b ∷ []) rest
    else sanitize_onto (result ++ b'_' ∷ []) rest

unfoldable pub sanitize : List ℕ → List ℕ
unfolding sanitize_onto
sanitize s = sanitize_onto [] s
