-- ===== src/Provider/Json/Shaped.antt =====
-- internal/provider/json/json.go: answers whose tables are objects, at which no method panics.
use gcisco_exporter.Base.{
  ◌≡◌, ◌≢◌, refl, String, Bool, true, false, ◌||◌, ◌==◌, Option, none, some, List, [], ◌∷◌, ◌⊎◌,
  inl, inr, All, if◌then◌else◌,
}
use gcisco_exporter.Error.{Error, Answer, panics, returns}
use gcisco_exporter.Float.{Float64}
use gcisco_exporter.Provider.Cli.Lines.{◌>>=◌, each, each_or_panic}
use gcisco_exporter.Provider.Json.{PortChannelData, HardwareData}
use gcisco_exporter.Provider.Json.Value.{
  Json, Fields, null, boolean, number, text, array, object, objects, find,
}
use gcisco_exporter.Provider.Json.Exec.{table_rows, rows_of, answer_of, on_answer}
use gcisco_exporter.Provider.Json.Channels.{with_members, add_channel, channel_name}
use gcisco_exporter.Provider.Json.Hardware.{
  no_hardware, add_temperature, add_fan, add_module_supply, add_supply, add_module, each_row,
  hardware_of,
}

-- the tables whose type the methods assert without a test
unfoldable pub is_asserted : String → Bool
is_asserted name =
    name == "TABLE_interface"
    || name == "TABLE_process_cpu"
    || name == "TABLE_vlan"
    || name == "TABLE_vlanbriefxbrief"
    || name == "TABLE_channel"
    || name == "TABLE_tempinfo"
    || name == "TABLE_faninfo"
    || name == "TABLE_mod_pow_info"
    || name == "TABLE_psinfo"
    || name == "TABLE_modinfo"
    || name == "TABLE_filesys"
    || name == "TABLE_buffer_pool"

pub returns-calm : {A : Type 0} (a : A) (e : Option Error) → returns a e ≢ panics
returns-calm a e p = absurd cc

module _ {F : Type 0} where
  -- a field that is missing or an object
  abbrev pub IsTable : Option (Json F) → Type 0
  IsTable none = Unit
  IsTable (some (object fields)) = Unit
  IsTable (some null) = ⊥
  IsTable (some (boolean b)) = ⊥
  IsTable (some (number n)) = ⊥
  IsTable (some (text s)) = ⊥
  IsTable (some (array vs)) = ⊥

  -- every such table of an answer is an object, and so is the table of members in each row of a port channel
  pub record IsShaped (fields : Fields F) : Type 0 where
    pub tables : (name : String) → is_asserted name ≡ true → IsTable (find name fields)
    pub members :
        (rows : List (Json F))
        → table_rows "ROW_channel" (find "TABLE_channel" fields) ≡ some rows
        → All (λ m. IsTable (find "TABLE_member" m)) (objects rows)

  pub table_rows-some :
      (row : String) (o : Option (Json F))
      → IsTable o
      → (rows : List (Json F)) × (table_rows row o ≡ some rows)
  unfolding table_rows
  table_rows-some row none h = ([], refl)
  table_rows-some row (some (object fields)) h = (rows_of (find row fields), refl)
  table_rows-some row (some null) h = absurd h
  table_rows-some row (some (boolean b)) h = absurd h
  table_rows-some row (some (number n)) h = absurd h
  table_rows-some row (some (text s)) h = absurd h
  table_rows-some row (some (array vs)) h = absurd h

  pub answered-calm :
      {A : Type 0} (r : Error ⊎ Fields F) (failed : Error → Answer A) (body : Fields F → Answer A)
      → ((e : Error) → failed e ≢ panics)
      → ((fields : Fields F) → r ≡ inr fields → body fields ≢ panics)
      → on_answer r failed body ≢ panics
  unfolding on_answer
  answered-calm (inl e) failed body h g = h e
  answered-calm (inr fields) failed body h g = g fields refl

pub answer_of-calm : {A : Type 0} (o : Option A) (a : A) → o ≡ some a → answer_of o ≢ panics
unfolding answer_of
answer_of-calm o a e = rw e (returns-calm a none)

if-some :
    {A : Type 0} (b : Bool) (a : A) (o : Option A)
    → ((r : A) × (o ≡ some r))
    → (r : A) × ((if b then some a else o) ≡ some r)
if-some true a o h = (a, refl)
if-some false a o h = h

module _ {A B : Type 0} (P : B → Type 0) (step : A → B → Option A)
    (h : (a : A) (b : B) → P b → (r : A) × (step a b ≡ some r)) where
  pub each_or_panic-some :
      (a : A) (list : List B) → All P list → (r : A) × (each_or_panic step a list ≡ some r)
  unfolding each_or_panic ◌>>=◌
  each_or_panic-some a [] p = (a, refl)
  each_or_panic-some a (b ∷ list) p =
      let (next, e) = h a b (p.0) in rw e (each_or_panic-some next list (p.1))

module _ {F : Type 0} ⦃fl : Float64 F⦄ where
  with_members-some :
      (pc : String) (o : Option (Json F)) (result : PortChannelData F)
      → IsTable o
      → (r : PortChannelData F) × (with_members pc o result ≡ some r)
  unfolding with_members
  with_members-some pc none result h = (result, refl)
  with_members-some pc (some (object table)) result h = (_, refl)
  with_members-some pc (some null) result h = absurd h
  with_members-some pc (some (boolean b)) result h = absurd h
  with_members-some pc (some (number n)) result h = absurd h
  with_members-some pc (some (text s)) result h = absurd h
  with_members-some pc (some (array vs)) result h = absurd h

  pub add_channel-some :
      (result : PortChannelData F) (m : Fields F)
      → IsTable (find "TABLE_member" m)
      → (r : PortChannelData F) × (add_channel result m ≡ some r)
  unfolding add_channel
  add_channel-some result m h =
      if-some (channel_name m == "") result _
        (with_members-some (channel_name m) (find "TABLE_member" m) _ h)

  pub each_row-some :
      {A : Type 0} (name row : String) (fields : Fields F) (step : A → Fields F → A) (a : A)
      → IsTable (find name fields)
      → (r : A) × (each_row name row fields step a ≡ some r)
  unfolding each_row
  each_row-some name row fields step a h =
      let (rows, e) = table_rows-some row (find name fields) h in
      (each step a (objects rows), rw (e, each_row) refl)

  pub hardware_of-some :
      (fields : Fields F) → IsShaped fields → (r : HardwareData F) × (hardware_of fields ≡ some r)
  unfolding hardware_of is_asserted ◌>>=◌
  hardware_of-some fields h =
      let (r1, e1) =
        each_row-some "TABLE_tempinfo" "ROW_tempinfo" fields add_temperature no_hardware
          (h.tables "TABLE_tempinfo" refl) in
      let (r2, e2) =
        each_row-some "TABLE_faninfo" "ROW_faninfo" fields add_fan r1
          (h.tables "TABLE_faninfo" refl) in
      let (r3, e3) =
        each_row-some "TABLE_mod_pow_info" "ROW_mod_pow_info" fields add_module_supply r2
          (h.tables "TABLE_mod_pow_info" refl) in
      let (r4, e4) =
        each_row-some "TABLE_psinfo" "ROW_psinfo" fields add_supply r3
          (h.tables "TABLE_psinfo" refl) in
      let (r5, e5) =
        each_row-some "TABLE_modinfo" "ROW_modinfo" fields add_module r4
          (h.tables "TABLE_modinfo" refl) in
      (r5, rw (e1, e2, e3, e4, e5) refl)
