-- ===== src/Provider/Output.antt =====
-- internal/provider/ssh/client.go: `cleanOutput`, which takes the echo of the command, the prompts and the
-- empty lines out of what a shell sent.
pub mod Stable
pub mod Read
use gcisco_exporter.Base.{
  ℕ, Bool, true, false, ◌&&◌, ◌||◌, not, List, [], ◌∷◌, ◌++◌, ltb, nat_eq, if◌then◌else◌,
}
use Prim.Native.Char.{Char, char, code}
use gcisco_exporter.Strings.{Chars, same_chars, split_lines, trim_space}

-- `strings.ReplaceAll(s, "\r", "")`
unfoldable pub without_returns : Chars → Chars
without_returns [] = []
without_returns (c ∷ s) =
    let rest = without_returns s in if nat_eq (code c) 13 then rest else c ∷ rest

-- `strings.HasSuffix(s, "#")`
unfoldable pub ends_in_hash : Chars → Bool
ends_in_hash [] = false
ends_in_hash (c ∷ []) = nat_eq (code c) b'#'
ends_in_hash (c ∷ d ∷ s) = ends_in_hash (d ∷ s)

-- `strings.Contains(s, "# ")`
unfoldable pub has_hash_blank : Chars → Bool
has_hash_blank [] = false
has_hash_blank (c ∷ []) = false
has_hash_blank (c ∷ d ∷ s) =
    (nat_eq (code c) b'#' && nat_eq (code d) b' ') || has_hash_blank (d ∷ s)

-- the two conditions under which the loop skips a line, on the trimmed line
unfoldable pub is_skipped : Chars → Chars → Bool
is_skipped cmd trimmed =
    same_chars trimmed []
    || same_chars trimmed cmd
    || ends_in_hash trimmed
    || has_hash_blank trimmed

-- the loop over the lines
unfoldable pub keep_lines : Chars → List Chars → List Chars
keep_lines cmd [] = []
keep_lines cmd (line ∷ lines) =
    let rest = keep_lines cmd lines in
    if is_skipped cmd (trim_space line) then rest else line ∷ rest

-- "\n"
abbrev pub newline : Char
newline = char 10 tt

-- `strings.Join(lines, "\n")`
unfoldable pub join_lines : List Chars → Chars
join_lines [] = []
join_lines (line ∷ []) = line
join_lines (line ∷ next ∷ lines) = line ++ newline ∷ join_lines (next ∷ lines)

unfoldable pub clean_output : Chars → Chars → Chars
clean_output s cmd = join_lines (keep_lines cmd (split_lines (without_returns s)))
