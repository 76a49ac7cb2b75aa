-- ===== src/Tests/Network.antt =====
-- A network in which each command is answered by an empty object, under the program's own providers.
use gcisco_exporter.Text.{same_codes}
use gcisco_exporter.Base.{
  ◌∷◌, true, insert, ◌++◌, ℕ, ◌≡◌, refl, sym, ap, ◌∙◌, subst, some-injective, String, false, [],
  All, ◌⊎◌, inl, inr,
}
use gcisco_exporter.Error.{Error, message}
use gcisco_exporter.Strings.{
  Chars, chars, contains, occurs, begins, before, take, drop, trim_space, trim_left, trim_end,
  is_space,
}
use gcisco_exporter.Float.{whole}
use gcisco_exporter.Int.{pos}
use gcisco_exporter.Config.{Device, Credential}
use gcisco_exporter.Provider.Json.Value.{Fields, end_of_object, find, objects}
use gcisco_exporter.Provider.Json.Exec.{exec, parse_json, decoded, from_brace, table_rows}
use gcisco_exporter.Provider.Json.Methods.{run_json}
use gcisco_exporter.Provider.Json.Shaped.{IsShaped, IsTable}
use gcisco_exporter.Provider.Restconf.Request.{Http, responded}
use gcisco_exporter.Provider.Netconf.Session.{
  Exchange, written, float, string, exec_rpc, trim_end_mark, parse_xml_fields, pair_tags, take_pair,
  index_of, start_of, leaf_of,
}
use gcisco_exporter.Provider.Netconf.Replies.{NoMark, joined, exec_rpc-mark}
use gcisco_exporter.Provider.Netconf.Methods.{Xml}
use gcisco_exporter.Provider.Cli.Lines.{blocks, blocks_of}
use gcisco_exporter.Provider.Cli.Nxos.Patterns.{ethernet_header}
use gcisco_exporter.Provider.Cli.Nxos.Panics.{any_block_breaks}
use gcisco_exporter.Regexp.{
  with_group, is_blank, match_parts, match_shape, match_word, points, starts_line, is_digit,
  match_one, match_many, or_else,
}
use gcisco_exporter.Regexp.Find.{
  find_all_submatch, submatches, submatch, matches_from, from_here, onto_some, taken,
}
use gcisco_exporter.Scheduler.World.{Env}
use gcisco_exporter.Scheduler.Device.{collect_device}
use gcisco_exporter.Scheduler.Fallback.Returns.{Returns}
use gcisco_exporter.Scheduler.Implemented.{json_run, implemented, IsTame, implemented-Returns}
use gcisco_exporter.Tests.Counted.{whole-CountsAreAccepted}
use gcisco_exporter.Tests.Sample.{network, config, switch, admin}

abbrev answering : Env ℕ
answering = record network { execute = λ t d c cmd. inr "{}" }

abbrev read_empty : Chars → String ⊎ Fields ℕ
read_empty s = inr end_of_object

abbrev server : Http ℕ
server = record {
  get = λ t host port cred path. responded 404 "";
  decode = λ body. inl (message "EOF");
  status_error = λ path status body. message path;
  request_error = λ path err. err;
  decode_error = λ path err. err;
  show_value = λ v. "";
  show_process = λ name pid. name;
  int_of = pos;
}

abbrev no_xml : Xml
no_xml = record {
  interfaces = λ answer. inl (message "EOF");
  processes = λ answer. inl (message "EOF");
  show_process = λ name pid. name;
}

-- a session that ends without an answer
abbrev silent : ℕ → Device → Credential → Chars → Exchange
silent t d cred rpc = written [] (message "EOF")

answered_of : Error ⊎ Fields ℕ → Fields ℕ → Fields ℕ
answered_of (inl err) fields = fields
answered_of (inr found) fields = found

text_of_reply : Error ⊎ String → String
text_of_reply (inl err) = ""
text_of_reply (inr text) = text

no_tables-IsShaped : (fields : Fields ℕ) → fields ≡ end_of_object → IsShaped fields
unfolding find table_rows objects
no_tables-IsShaped fields e = subst IsShaped (sym e) (record {
  tables = λ name h. tt;
  members = λ rows none_there.
      subst (λ list. All (λ m. IsTable (find "TABLE_member" m)) (objects list))
        (some-injective [] rows none_there) tt;
})

run_lem :
    (t : ℕ) (d : Device) (cmd : String)
    → json_run answering read_empty (λ d. admin) server no_xml silent t d cmd ≡ inr end_of_object
unfolding json_run run_json exec parse_json decoded from_brace
run_lem t d cmd = refl

unbroken_empty : any_block_breaks (blocks ethernet_header (chars "{}")) ≡ false
unfolding any_block_breaks blocks blocks_of matches_from match_parts match_shape match_word
    from_here onto_some taken points starts_line is_digit match_one match_many or_else
unbroken_empty = refl

answering-IsTame : IsTame answering read_empty (λ d. admin) server no_xml silent
unfolding answered_of text_of_reply
answering-IsTame = record {
  shaped = λ t d cmd fields answered.
      no_tables-IsShaped fields
        (ap (λ r. answered_of r end_of_object) (sym answered ∙ run_lem t d cmd));
  unbroken = λ t d c out replied.
      subst (λ text. any_block_breaks (blocks ethernet_header (chars text)) ≡ false)
        (ap (λ r. text_of_reply r) replied) unbroken_empty;
  counts =
      whole-CountsAreAccepted (implemented answering read_empty (λ d. admin) server no_xml silent);
}

implemented-Returns_example : Returns (
    collect_device
      (implemented answering read_empty (λ d. admin) server no_xml silent)
      config
      switch)
implemented-Returns_example =
    implemented-Returns answering read_empty (λ d. admin) server no_xml silent answering-IsTame
      config switch

-- a session that answers with two lines, of which the second has the mark, and has more to say
abbrev two_lines : Chars → Exchange
two_lines rpc = written (chars "<a>" ∷ chars "</a>]]>]]>" ∷ chars "<b/>" ∷ []) (message "EOF")

first_line-NoMark : NoMark (chars "<a>")
unfolding contains occurs begins
first_line-NoMark = refl

marked : contains (chars "</a>]]>]]>") "]]>]]>" ≡ true
unfolding contains occurs begins
marked = refl

exec_rpc-mark_example :
    exec_rpc two_lines (chars "<rpc/>")
    ≡ inr (trim_end_mark (joined (chars "<a>" ∷ []) ++ chars "</a>]]>]]>"))
exec_rpc-mark_example =
    exec_rpc-mark two_lines (chars "<rpc/>") (chars "<a>" ∷ []) (chars "</a>]]>]]>")
      (chars "<b/>" ∷ []) (message "EOF") refl (first_line-NoMark, tt) marked

-- the tags of an element inside another are paired with each other's, and nothing is read
nested_element : parse_xml_fields {F = ℕ} (chars "<a><b>7</b></a>") ≡ []
unfolding parse_xml_fields pair_tags take_pair find_all_submatch submatches submatch matches_from
    match_parts match_shape match_word match_many match_one points or_else with_group from_here
    onto_some taken before take drop is_blank same_codes
nested_element = refl

-- elements one after the other are read
two_elements :
    parse_xml_fields {F = ℕ} (chars "<a>7</a><b>x</b>") ≡ ("a", float 7) ∷ ("b", string "x") ∷ []
unfolding parse_xml_fields pair_tags take_pair find_all_submatch submatches submatch matches_from
    match_parts match_shape match_word match_many match_one points or_else with_group from_here
    onto_some taken before take drop is_blank same_codes index_of begins start_of leaf_of insert
    trim_space trim_left trim_end is_space
two_elements = refl
