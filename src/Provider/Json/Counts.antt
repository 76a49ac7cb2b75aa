-- ===== src/Provider/Json/Counts.antt =====
-- internal/provider/json/json.go: what `CollectVLANs` counts, how many processes `CollectProcesses` returns, and
-- an answer without JSON.
use gcisco_exporter.Base.{
  ℕ, zero, suc, ◌+◌, ◌≤◌, ◌≡◌, ◌≢◌, refl, ap, subst, String, Bool, Option, none, some, List, [],
  ◌∷◌, map, length, All, ◌⊎◌, inl, inr, if◌then◌else◌, arith,
}
use Prim.Native.Char.{code}
use gcisco_exporter.Int.{ℤ, pos, negsuc}
use gcisco_exporter.Error.{Error, Answer, panics, returns}
use gcisco_exporter.Strings.{Chars, chars}
use gcisco_exporter.Float.{Float64}
use gcisco_exporter.Provider.Cli.Lines.{each}
use gcisco_exporter.Provider.Json.{SystemData, ProcessData, VlanData}
use gcisco_exporter.Provider.Json.Value.{
  Json, Fields, null, boolean, number, text, array, object, objects, find,
}
use gcisco_exporter.Provider.Json.Exec.{
  exec, on_answer, table_rows, string_field, string_of, parse_failure,
}
use gcisco_exporter.Provider.Json.Braces.{parse_json-none}
use gcisco_exporter.Provider.Json.System.{
  collect_system, system_of, collect_processes, processes_of, process_of, within_limit, first_rows,
}
use gcisco_exporter.Provider.Json.Switching.{collect_vlans, vlans_of, add_vlan, is_active_row}

-- as many as a limit allows
unfoldable pub IsAllowed : ℤ → ℕ → Type 0
IsAllowed (pos n) k = k ≤ n
IsAllowed (negsuc n) k = k ≡ 0

-- the value of an answer
unfoldable pub value_or : {A : Type 0} → A → Answer A → A
value_or a panics = a
value_or a (returns b e) = b

length-map : {A B : Type 0} (f : A → B) (list : List A) → length (map f list) ≡ length list
length-map f [] = refl
length-map f (a ∷ list) = ap (λ n. suc n) (length-map f list)

first_rows-length : {A : Type 0} (n : ℕ) (rows : List A) → length (first_rows n rows) ≤ n
unfolding first_rows
first_rows-length zero rows = omega arith
first_rows-length (suc n) [] = omega arith
first_rows-length (suc n) (row ∷ rows) = omega (arith, first_rows-length n rows)

no_rows-IsAllowed : (limit : ℤ) → IsAllowed limit 0
unfolding IsAllowed
no_rows-IsAllowed (pos n) = omega arith
no_rows-IsAllowed (negsuc n) = refl

module _ {F : Type 0} where
  -- the number of rows with a property
  unfoldable pub number_of : (Fields F → Bool) → List (Fields F) → ℕ
  number_of p [] = zero
  number_of p (m ∷ rows) = (if p m then 1 else 0) + number_of p rows

  number_of-length : (p : Fields F → Bool) (rows : List (Fields F)) → number_of p rows ≤ length rows
  unfolding number_of
  number_of-length p [] = omega arith
  number_of-length p (m ∷ rows) = ground (arith, number_of-length p rows)

module _ {F : Type 0} ⦃fl : Float64 F⦄ where
  each-add_vlan :
      (held : VlanData) (rows : List (Fields F))
      → ((each add_vlan held rows).count ≡ held.count + length rows)
        × ((each add_vlan held rows).active ≡ held.active + number_of is_active_row rows)
  unfolding each add_vlan number_of
  each-add_vlan held [] = (omega arith, omega arith)
  each-add_vlan held (m ∷ rows) =
      let h = each-add_vlan (add_vlan held m) rows in (ground (arith, h.0), ground (arith, h.1))

  -- Where the device answers with a table of VLANs, `CollectVLANs` returns without an error, and counts the
  -- rows that are objects and among them those whose state is active: no more are active than there are.
  pub collect_vlans-counts :
      (run : String → Error ⊎ Fields F) (fields : Fields F) (rows : List (Json F))
      → run "show vlan brief | json" ≡ inr fields
      → table_rows "ROW_vlanbriefxbrief" (find "TABLE_vlanbriefxbrief" fields) ≡ some rows
      → (vlans : VlanData) × (collect_vlans run ≡ returns vlans none)
        × (vlans.count ≡ length (objects rows))
        × (vlans.active ≡ number_of is_active_row (objects rows))
        × (vlans.active ≤ vlans.count)
  unfolding collect_vlans vlans_of on_answer
  collect_vlans-counts run fields rows answered found =
      let none_yet : VlanData = record { count = zero; active = zero } in
      let h = each-add_vlan none_yet (objects rows) in
      let b = number_of-length is_active_row (objects rows) in
      (
        each add_vlan none_yet (objects rows),
        rw (answered, found) refl,
        omega (arith, h.0),
        omega (arith, h.1),
        omega (arith, h.0, h.1, b),
      )

  objects-length : (rows : List (Json F)) → length (objects rows) ≤ length rows
  unfolding objects
  objects-length [] = omega arith
  objects-length (null ∷ rows) = omega (arith, objects-length rows)
  objects-length (boolean b ∷ rows) = omega (arith, objects-length rows)
  objects-length (number n ∷ rows) = omega (arith, objects-length rows)
  objects-length (text s ∷ rows) = omega (arith, objects-length rows)
  objects-length (array vs ∷ rows) = omega (arith, objects-length rows)
  objects-length (object m ∷ rows) = omega (arith, objects-length rows)

  processes-IsAllowed :
      (limit : ℤ) (rows : List (Json F))
      → IsAllowed limit (length (map process_of (objects (within_limit limit rows))))
  unfolding IsAllowed within_limit objects
  processes-IsAllowed (pos n) rows = omega (
    arith,
    length-map process_of (objects (first_rows n rows)),
    objects-length (first_rows n rows),
    first_rows-length n rows,
  )
  processes-IsAllowed (negsuc n) rows = refl

  processes_of-IsAllowed :
      (limit : ℤ) (o : Option (List (Json F))) (processes : List (ProcessData F)) (e : Option Error)
      → processes_of limit o ≡ returns processes e
      → IsAllowed limit (length processes)
  unfolding processes_of value_or
  processes_of-IsAllowed limit none processes e h = absurd cc
  processes_of-IsAllowed limit (some rows) processes e h =
      subst (λ list. IsAllowed limit (length list)) (ap (value_or []) h)
        (processes-IsAllowed limit rows)

  -- `CollectProcesses` returns no more processes than the limit, and none under a limit that is not positive.
  pub collect_processes-IsAllowed :
      (run : String → Error ⊎ Fields F) (limit : ℤ) (processes : List (ProcessData F))
      (e : Option Error)
      → collect_processes run limit ≡ returns processes e
      → IsAllowed limit (length processes)
  unfolding collect_processes on_answer value_or
  collect_processes-IsAllowed run limit processes e h = go (run "show processes cpu | json") h
    where
      go :
          (r : Error ⊎ Fields F)
          → on_answer r
              (λ err. returns [] (some err))
              (λ fields.
                processes_of limit (table_rows "ROW_process_cpu" (find "TABLE_process_cpu" fields)))
            ≡ returns processes e
          → IsAllowed limit (length processes)
      go (inl err) p =
          subst (λ list. IsAllowed limit (length list)) (ap (value_or []) p)
            (no_rows-IsAllowed limit)
      go (inr fields) p = processes_of-IsAllowed limit _ processes e p

  -- Where the output of `show version | json` has no `{`, `CollectSystem` returns a nil error beside empty
  -- names: the failure to parse is no error.
  pub collect_system-none :
      (run : String → Error ⊎ Fields F) (decode : Chars → String ⊎ Fields F) (output : String)
      → run "show version | json" ≡ exec decode (inr output)
      → All (λ c. code c ≢ b'{') (chars output)
      → (system : SystemData F) × (collect_system run ≡ returns system none)
        × (system.hostname ≡ "")
        × (system.version ≡ "")
        × (system.model ≡ "")
        × (system.serial ≡ "")
  unfolding collect_system on_answer exec system_of string_field string_of find parse_failure
  collect_system-none run decode output answered plain = (
    system_of (parse_failure output "no JSON found"),
    rw (answered, parse_json-none decode output plain) refl,
    refl,
    refl,
    refl,
    refl,
  )
