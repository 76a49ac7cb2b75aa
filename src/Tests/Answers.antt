-- ===== src/Tests/Answers.antt =====
-- Runs of the JSON provider at small answers.
use gcisco_exporter.Base.{
  ℕ, ◌≡◌, ◌≤◌, ◌++◌, refl, String, some, none, List, [], ◌∷◌, length, ◌⊎◌, inl, inr, arith,
}
use gcisco_exporter.Int.{pos}
use gcisco_exporter.Error.{returns}
use gcisco_exporter.Strings.{Chars, chars}
use gcisco_exporter.Float.{whole}
use gcisco_exporter.Provider.Json.{SystemData, ProcessData, VlanData}
use gcisco_exporter.Provider.Json.Value.{
  Fields, Items, number, text, array, object, item, field, end_of_array, end_of_object, items, find,
  objects,
}
use gcisco_exporter.Provider.Json.Exec.{
  exec, on_answer, table_rows, rows_of, parse_json, decoded, string_field, string_of, num_field,
  num_of,
}
use gcisco_exporter.Provider.Json.System.{
  collect_system, collect_processes, processes_of, process_of, within_limit, first_rows,
}
use gcisco_exporter.Provider.Json.Switching.{collect_vlans, is_active_row}
use gcisco_exporter.Provider.Json.Braces.{
  open_brace, close_brace, Nested, nothing, other, inside, parse_json-Nested,
}
use gcisco_exporter.Provider.Json.Counts.{
  number_of, IsAllowed, collect_vlans-counts, collect_processes-IsAllowed, collect_system-none,
}

-- a decoder that reads nothing
abbrev no_decoder : Chars → String ⊎ Fields ℕ
no_decoder s = inl "unexpected end of JSON input"

abbrev vlan_rows : Items ℕ
vlan_rows = item (object (field "vlan_state" (text "active") end_of_object)) (
    item (number 3)
      (item (object (field "vlan_state" (text "suspend") end_of_object)) end_of_array))

abbrev vlan_answer : Fields ℕ
vlan_answer =
    field "TABLE_vlanbriefxbrief"
      (object (field "ROW_vlanbriefxbrief" (array vlan_rows) end_of_object)) end_of_object

abbrev process_rows : Items ℕ
process_rows =
    item (object (field "process" (text "init") (field "cpu_percent" (text "7") end_of_object)))
      (item (object (field "process" (text "sshd") end_of_object)) end_of_array)

abbrev process_answer : Fields ℕ
process_answer =
    field "TABLE_process_cpu" (object (field "ROW_process_cpu" (array process_rows) end_of_object))
      end_of_object

abbrev first_process : List (ProcessData ℕ)
first_process = record { name = "init"; cpu = 7; runtime = 0 } ∷ []

found_rows :
    table_rows "ROW_vlanbriefxbrief" (find "TABLE_vlanbriefxbrief" vlan_answer)
    ≡ some (items vlan_rows)
unfolding table_rows find rows_of items
found_rows = refl

collected_processes :
    collect_processes (λ cmd. inr process_answer) (pos 1) ≡ returns first_process none
unfolding collect_processes on_answer processes_of table_rows find rows_of items within_limit
    first_rows objects process_of string_field string_of num_field num_of
collected_processes = refl

collect_vlans-counts_example :
    (vlans : VlanData) × (collect_vlans (λ cmd. inr vlan_answer) ≡ returns vlans none)
    × (vlans.count ≡ length (objects (items vlan_rows)))
    × (vlans.active ≡ number_of is_active_row (objects (items vlan_rows)))
    × (vlans.active ≤ vlans.count)
collect_vlans-counts_example =
    collect_vlans-counts (λ cmd. inr vlan_answer) vlan_answer (items vlan_rows) refl found_rows

collect_processes-IsAllowed_example : IsAllowed (pos 1) (length first_process)
collect_processes-IsAllowed_example =
    collect_processes-IsAllowed (λ cmd. inr process_answer) (pos 1) first_process none
      collected_processes

-- `ok {1{}} #` is decoded from its first brace to the one that closes it
abbrev object_text : Chars
object_text = chars "1{}"

object_text-Nested : Nested object_text
object_text-Nested =
    other "1" (chars "{}") ((λ e. absurd (omega arith)), (λ e. absurd (omega arith)))
      (inside [] [] nothing nothing)

parse_json-Nested_example :
    parse_json no_decoder "k {1{}} #"
    ≡ decoded "k {1{}} #" (no_decoder (open_brace ∷ (object_text ++ close_brace ∷ [])))
parse_json-Nested_example =
    parse_json-Nested no_decoder "k {1{}} #" (chars "k ") object_text (chars " #") refl
      ((λ e. absurd (omega arith)), ((λ e. absurd (omega arith)), tt)) object_text-Nested

collect_system-none_example :
    (system : SystemData ℕ) × (collect_system (λ cmd. exec no_decoder (inr "% x"))
      ≡ returns system none)
    × (system.hostname ≡ "")
    × (system.version ≡ "")
    × (system.model ≡ "")
    × (system.serial ≡ "")
collect_system-none_example =
    collect_system-none (λ cmd. exec no_decoder (inr "% x")) no_decoder "% x" refl
      (
        (λ e. absurd (omega arith)),
        ((λ e. absurd (omega arith)), ((λ e. absurd (omega arith)), tt)),
      )
