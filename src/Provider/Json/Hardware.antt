-- ===== src/Provider/Json/Hardware.antt =====
-- internal/provider/json/json.go: hardware, maintenance and capacity.
use gcisco_exporter.Base.{
  ℕ, zero, suc, ◌+◌, String, false, ◌||◌, Option, none, some, List, [], ◌∷◌, ◌++◌, ◌⊎◌, inl, inr,
  Map, insert, ◌==◌, if◌then◌else◌,
}
use gcisco_exporter.Error.{Error, Answer, panics, returns}
use gcisco_exporter.Strings.{chars, text_of, has_prefix}
use gcisco_exporter.Float.{Float64}
use gcisco_exporter.Provider.Cli.Lines.{◌>>=◌, each}
use gcisco_exporter.Provider.Json.{HardwareData, SystemData2, CapacityData}
use gcisco_exporter.Provider.Json.Value.{Fields, objects, find}
use gcisco_exporter.Provider.Json.Exec.{
  string_field, num_field, table_rows, parse_uptime, on_answer, answer_of, if_answered,
}

module _ {F : Type 0} ⦃fl : Float64 F⦄ where
  unfoldable pub no_hardware : HardwareData F
  no_hardware = record {
    temperature = [];
    fan_status = [];
    power_supply = [];
    power_redundant = false;
    module_status = [];
    stack_member_status = [];
  }

  -- a field, or another where it is empty
  unfoldable pub field_or : Fields F → String → String → String
  field_or m first second =
      if string_field m first == "" then string_field m second else string_field m first

  unfoldable pub add_temperature : HardwareData F → Fields F → HardwareData F
  add_temperature result m =
      let sensor = field_or m "sensor" "name" in
      if sensor == "" then result else record result {
        temperature = insert sensor (num_field m "temperature") result.temperature;
      }

  unfoldable pub add_fan : HardwareData F → Fields F → HardwareData F
  add_fan result m =
      let fan = field_or m "fanname" "name" in
      let is_ok = string_field m "status" == "ok" || string_field m "status" == "normal" in
      if fan == ""
      then result
      else record result { fan_status = insert fan is_ok result.fan_status }

  unfoldable pub add_module_supply : HardwareData F → Fields F → HardwareData F
  add_module_supply result m =
      let ps = field_or m "psname" "name" in
      let is_ok = string_field m "ps_status" == "ok" || string_field m "status" == "ok" in
      if ps == ""
      then result
      else record result { power_supply = insert ps is_ok result.power_supply }

  unfoldable pub add_supply : HardwareData F → Fields F → HardwareData F
  add_supply result m =
      let ps = string_field m "psnum" in
      let named = text_of (chars "PS-" ++ chars ps) in
      if ps == "" then result else record result {
        power_supply = insert named (string_field m "ps_status" == "ok") result.power_supply;
      }

  unfoldable pub add_module : HardwareData F → Fields F → HardwareData F
  add_module result m =
      let name = field_or m "modinf" "module_number" in
      let is_ok = string_field m "status" == "ok" || string_field m "status" == "active" in
      if name == ""
      then result
      else record result { module_status = insert name is_ok result.module_status }

  -- `if table, ok := data[name]; ok { … }`: the loop over the rows of a table
  unfoldable pub each_row :
      {A : Type 0} → String → String → Fields F → (A → Fields F → A) → A → Option A
  each_row name row fields step a = elim (table_rows row (find name fields)) [
    | none ↦ none
    | some rows ↦ some (each step a (objects rows))
  ]

  unfoldable pub hardware_of : Fields F → Option (HardwareData F)
  hardware_of fields =
      each_row "TABLE_tempinfo" "ROW_tempinfo" fields add_temperature no_hardware
      >>= each_row "TABLE_faninfo" "ROW_faninfo" fields add_fan
      >>= each_row "TABLE_mod_pow_info" "ROW_mod_pow_info" fields add_module_supply
      >>= each_row "TABLE_psinfo" "ROW_psinfo" fields add_supply
      >>= each_row "TABLE_modinfo" "ROW_modinfo" fields add_module

  unfoldable pub collect_hardware : (String → Error ⊎ Fields F) → Answer (HardwareData F)
  collect_hardware run =
      on_answer (run "show environment | json") (λ err. returns no_hardware none)
        (λ fields. answer_of (hardware_of fields))

  unfoldable pub percent : F → F → F
  percent used total = fl.times (fl.over used total) (fl.of_nat 100)

  -- the loop over the file systems, which the first one with a name ends
  unfoldable pub first_flash : F → List (Fields F) → F
  first_flash held [] = held
  first_flash held (m ∷ rows) =
      let total = num_field m "total_kbytes" in
      let used = num_field m "used_kbytes" in
      let later = first_flash held rows in
      if string_field m "filesystem" == ""
      then later
      else if fl.less (fl.of_nat zero) total
      then percent used total
      else held

  unfoldable pub flash_of : Error ⊎ Fields F → SystemData2 F → Option (SystemData2 F)
  flash_of (inl err) result = some result
  flash_of (inr fields) result = elim (table_rows "ROW_filesys" (find "TABLE_filesys" fields)) [
    | none ↦ none
    | some rows ↦ some (record result { flash_util = first_flash result.flash_util (objects rows) })
  ]

  unfoldable pub no_system_info : SystemData2 F
  no_system_info = record {
    ntp_synced = false;
    uptime = fl.of_nat zero;
    reload_events = fl.of_nat zero;
    flash_util = fl.of_nat zero;
  }

  unfoldable pub collect_system_info : (String → Error ⊎ Fields F) → Answer (SystemData2 F)
  collect_system_info run =
      let with_ntp =
        if_answered (run "show ntp status | json")
          (λ fields held. record held {
            ntp_synced =
                string_field fields "sync_state" == "synchronized"
                || string_field fields "status" == "synchronized";
          })
          no_system_info in
      let with_uptime =
        if_answered (run "show version | json")
          (λ fields held. record held { uptime = parse_uptime fields }) with_ntp in
      answer_of (flash_of (run "show file systems | json") with_uptime)

  -- the ports, and those that are up
  unfoldable pub add_port : ℕ × ℕ → Fields F → ℕ × ℕ
  add_port (total, active) m =
      let name = chars (string_field m "interface") in
      if has_prefix name "Vlan" || has_prefix name "Loopback" || has_prefix name "Null"
      then (total, active)
      else (total + 1, if string_field m "state" == "up" then active + 1 else active)

  unfoldable pub port_ratio : ℕ × ℕ → F
  port_ratio (zero, active) = fl.of_nat zero
  port_ratio (suc total, active) = percent (fl.of_nat active) (fl.of_nat (suc total))

  unfoldable pub ratio_of : Error ⊎ Fields F → Option F
  ratio_of (inl err) = some (fl.of_nat zero)
  ratio_of (inr fields) =
      elim (each_row "TABLE_interface" "ROW_interface" fields add_port (zero, zero)) [
        | none ↦ none
        | some ports ↦ some (port_ratio ports)
      ]

  unfoldable pub add_buffer : Map F → Fields F → Map F
  add_buffer result m =
      let pool = field_or m "pool_name" "name" in
      let total = num_field m "total" in
      let used = num_field m "used" in
      if pool == ""
      then result
      else if fl.less (fl.of_nat zero) total
      then insert pool (percent used total) result
      else result

  unfoldable pub buffers_of : Error ⊎ Fields F → Option (Map F)
  buffers_of (inl err) = some []
  buffers_of (inr fields) = each_row "TABLE_buffer_pool" "ROW_buffer_pool" fields add_buffer []

  unfoldable pub capacity_of : Option F → Option (Map F) → Answer (CapacityData F)
  capacity_of (some ratio) (some buffers) =
      returns
        (record {
          port_utilization_ratio = ratio;
          transceiver_count = zero;
          buffer_utilization = buffers;
          queue_utilization = [];
        })
        none
  capacity_of ratio buffers = panics

  unfoldable pub collect_capacity : (String → Error ⊎ Fields F) → Answer (CapacityData F)
  collect_capacity run =
      capacity_of (ratio_of (run "show interface | json")) (buffers_of (run "show buffers | json"))
