-- ===== src/Tests/Replies.antt =====
-- A run of the reader of a shell's output, over two reads.
use gcisco_exporter.Base.{◌≡◌, refl, Option, none, some, List, [], ◌∷◌, inr}
use gcisco_exporter.Error.{Error}
use gcisco_exporter.Text.{same_codes}
use gcisco_exporter.Strings.{
  Chars, chars, occurs, begins, before, take, split_lines, onto_first, trim_space, trim_left,
  trim_end, is_space,
}
use gcisco_exporter.Regexp.{
  match_parts, match_shape, match_word, match_many, match_one, points, or_else, is_end, is_any,
  is_blank,
}
use gcisco_exporter.Regexp.Find.{find_submatch, search_from, submatch, from_here}
use gcisco_exporter.Provider.Output.{
  clean_output, join_lines, keep_lines, is_skipped, ends_in_hash, has_hash_blank, without_returns,
}
use gcisco_exporter.Provider.Output.Read.{
  is_complete, after_read, read_output, IsCleaned, read_output-IsCleaned,
}

abbrev two_reads : List (Chars × Option Error)
two_reads = (chars "id\nx\n", none) ∷ (chars "r#", none) ∷ []

read_twice : read_output (chars "id") [] two_reads ≡ some (inr (chars "x"))
unfolding read_output is_complete after_read occurs begins find_submatch search_from submatch
    from_here match_parts match_shape match_word match_many match_one points or_else is_end is_any
    is_blank before take same_codes clean_output join_lines keep_lines is_skipped ends_in_hash
    has_hash_blank without_returns split_lines onto_first trim_space trim_left trim_end is_space
read_twice = refl

read_output-IsCleaned_example : IsCleaned (chars "id") [] two_reads (chars "x")
read_output-IsCleaned_example =
    read_output-IsCleaned (chars "id") [] two_reads (chars "x") read_twice
