-- ===== src/Provider/Netconf/Session.antt =====
-- internal/provider/netconf/netconf.go: `execRPC` and `getSubtree`, on what the session writes and reads, and
-- `parseXMLFields`.
use gcisco_exporter.Base.{
  ℕ, zero, suc, ◌+◌, ◌-◌, String, Option, none, some, List, [], ◌∷◌, ◌++◌, ◌⊎◌, inl, inr, Map,
  insert, ltb, if◌then◌else◌, map, length,
}
use Prim.Native.Char.{code}
use gcisco_exporter.Error.{Error, wrapped}
use gcisco_exporter.Strings.{
  Chars, chars, text_of, contains, same_chars, begins, trim_space, take, drop,
}
use gcisco_exporter.Regexp.{Pattern, is_blank, word, many, some_of, plain, group}
use gcisco_exporter.Regexp.Find.{find_all_submatch}
use gcisco_exporter.Base.{not, ◌||◌, nat_eq}
use gcisco_exporter.Float.{Float64}

-- What a session does with a message: the error of the write, or the lines that then arrive, each to its line feed,
-- and the error that ends the stream after them.
pub data Exchange : Type 0 where
  not_written : Error → Exchange
  written : List Chars → Error → Exchange

unfoldable pub read_failed : Error → Error ⊎ Chars
read_failed err = inl (wrapped "reading NETCONF response" err)

-- where the stream ends
unfoldable pub ended : Chars → Error → Error ⊎ Chars
unfolding read_failed
ended [] err = read_failed err
ended (c ∷ output) err = inr (c ∷ output)

-- the loop, on the output so far
unfoldable pub read_lines : Chars → List Chars → Error → Error ⊎ Chars
unfolding ended
read_lines output [] err = ended output err
read_lines output (line ∷ lines) err =
    let rest = read_lines (output ++ line) lines err in
    if contains line "]]>]]>" then inr (output ++ line) else rest

-- `strings.TrimSuffix(s, "]]>]]>")`
unfoldable pub trim_end_mark : Chars → Chars
unfolding take drop
trim_end_mark s =
    let n = length s - 6 in if same_chars (drop n s) (chars "]]>]]>") then take n s else s

unfoldable pub trimmed : Error ⊎ Chars → Error ⊎ Chars
unfolding trim_end_mark
trimmed (inl err) = inl err
trimmed (inr s) = inr (trim_end_mark s)

-- the rest of `execRPC`, after the write
unfoldable pub reply_of : Exchange → Error ⊎ Chars
unfolding read_lines trimmed
reply_of (not_written err) = inl (wrapped "writing NETCONF RPC" err)
reply_of (written lines err) = trimmed (read_lines [] lines err)

unfoldable pub exec_rpc : (Chars → Exchange) → Chars → Error ⊎ Chars
unfolding reply_of
exec_rpc exchange rpc = reply_of (exchange (rpc ++ chars "]]>]]>"))

abbrev pub rpc_head : String
rpc_head =
    "<rpc message-id=\"1\" xmlns=\"urn:ietf:params:xml:ns:netconf:base:1.0\">\n  <get>\n    <filter type=\"subtree\">"

abbrev pub rpc_tail : String
rpc_tail = "</filter>\n  </rpc>"

unfoldable pub get_subtree : (Chars → Exchange) → String → Error ⊎ Chars
unfolding exec_rpc
get_subtree exchange filter = exec_rpc exchange (chars rpc_head ++ chars filter ++ chars rpc_tail)

-- `<([^\s/>]+)[^>]*>`
abbrev pub open_tag : Pattern
open_tag =
    plain (word "<")
    ∷ group (some_of (λ c. not (is_blank c || nat_eq c b'/' || nat_eq c b'>')))
    ∷ plain (many (λ c. not (nat_eq c b'>')))
    ∷ plain (word ">")
    ∷ []

-- `</([^\s>]+)>`
abbrev pub close_tag : Pattern
close_tag =
    plain (word "</")
    ∷ group (some_of (λ c. not (is_blank c || nat_eq c b'>')))
    ∷ plain (word ">")
    ∷ []

-- `strings.Index`
unfoldable pub index_of : Chars → Chars → Option ℕ
unfolding begins
index_of [] t = if begins [] (map code t) then some zero else none
index_of (c ∷ s) t =
    let later = index_of s t in
    if begins (map code (c ∷ s)) (map code t)
    then some zero
    else elim later [ none ↦ none | some n ↦ some (suc n) ]

-- what a tag holds, `interface{}` in Go
pub data Leaf (F : Type 0) : Type 0 where
  float : F → Leaf F
  string : String → Leaf F

-- `strings.Index(data, ">") + 1`
unfoldable pub start_of : Option ℕ → ℕ
start_of none = zero
start_of (some n) = n + 1

module _ {F : Type 0} ⦃fl : Float64 F⦄ where
  unfoldable pub leaf_of : Chars → Leaf F
  leaf_of val =
      let (f, is_number) = fl.parse val in if is_number then float f else string (text_of val)

  -- one turn of the loop: an opening tag, a closing tag, the rest of the data, and the fields so far
  unfoldable pub take_pair : Chars → Chars → Chars × Map (Leaf F) → Chars × Map (Leaf F)
  take_pair tag closed (rest, result) =
      let end_mark = chars "</" ++ closed ++ chars ">" in
      let start = start_of (index_of rest (chars ">")) in
      if same_chars tag closed
      then elim (index_of rest end_mark) [
        | none ↦ (rest, result)
        | some finish ↦
            if ltb start finish
            then (
              drop (finish + length end_mark) rest,
              insert (text_of tag) (leaf_of (trim_space (take (finish - start) (drop start rest))))
                  result,
            )
            else (rest, result)
      ]
      else (rest, result)

  unfoldable pub pair_tags :
      List (List Chars) → List (List Chars) → Chars × Map (Leaf F) → Chars × Map (Leaf F)
  pair_tags ((whole ∷ tag ∷ more) ∷ opens) ((text ∷ closed ∷ others) ∷ closes) held =
      pair_tags opens closes (take_pair tag closed held)
  pair_tags opens closes held = held

  unfoldable pub parse_xml_fields : Chars → Map (Leaf F)
  parse_xml_fields data_ =
      (pair_tags (find_all_submatch open_tag data_) (find_all_submatch close_tag data_)
        (data_, [])).1
