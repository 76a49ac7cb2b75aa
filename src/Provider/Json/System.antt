-- ===== src/Provider/Json/System.antt =====
-- internal/provider/json/json.go: the system, its interfaces, optics, resources and processes.
use gcisco_exporter.Base.{
  ℕ, zero, suc, String, ◌&&◌, Option, none, some, List, [], ◌∷◌, map, ◌⊎◌, Map, insert, ◌==◌,
  if◌then◌else◌,
}
use gcisco_exporter.Int.{ℤ, pos, negsuc}
use gcisco_exporter.Error.{Error, Answer, panics, returns}
use gcisco_exporter.Float.{Float64}
use gcisco_exporter.Provider.Cli.Lines.{each}
use gcisco_exporter.Provider.Json.{SystemData, InterfaceData, OpticData, ResourceData, ProcessData}
use gcisco_exporter.Provider.Json.Value.{Json, Fields, array, object, objects, items, find}
use gcisco_exporter.Provider.Json.Exec.{
  string_field, num_field, table_rows, parse_uptime, on_answer,
}

unfoldable pub first_rows : {A : Type 0} → ℕ → List A → List A
first_rows zero rows = []
first_rows (suc n) [] = []
first_rows (suc n) (row ∷ rows) = row ∷ first_rows n rows

-- the rows before `i >= limit` ends the loop
unfoldable pub within_limit : {A : Type 0} → ℤ → List A → List A
within_limit (pos n) rows = first_rows n rows
within_limit (negsuc n) rows = []

module _ {F : Type 0} ⦃fl : Float64 F⦄ where
  unfoldable pub no_system : SystemData F
  no_system = record {
    hostname = "";
    version = "";
    model = "";
    serial = "";
    uptime = fl.of_nat zero;
  }

  unfoldable pub system_of : Fields F → SystemData F
  system_of fields = record {
    hostname = string_field fields "host_name";
    version = string_field fields "kickstart_ver_str";
    model = string_field fields "chassis_id";
    serial = string_field fields "proc_board_id";
    uptime = parse_uptime fields;
  }

  unfoldable pub collect_system : (String → Error ⊎ Fields F) → Answer (SystemData F)
  collect_system run =
      on_answer (run "show version | json") (λ err. returns no_system (some err))
        (λ fields. returns (system_of fields) none)

  unfoldable pub interface_of : Fields F → InterfaceData F
  interface_of m =
      let speed = num_field m "eth_speed" in
      record {
        name = string_field m "interface";
        admin_up = string_field m "admin_state" == "up";
        oper_up = string_field m "state" == "up";
        rx_bytes = num_field m "eth_inbytes";
        tx_bytes = num_field m "eth_outbytes";
        rx_errors = num_field m "eth_inerr";
        tx_errors = num_field m "eth_outerr";
        rx_crc_errors = num_field m "eth_crc";
        rx_frame = num_field m "eth_frame";
        rx_runts = num_field m "eth_runts";
        rx_giants = num_field m "eth_giants";
        rx_drops = fl.plus (num_field m "eth_in_drops") (num_field m "eth_underrun");
        tx_drops = fl.plus (num_field m "eth_out_drops") (num_field m "eth_overrun");
        rx_discards = num_field m "eth_in_discards";
        tx_discards = num_field m "eth_out_discards";
        resets = num_field m "eth_resets";
        flaps = fl.of_nat zero;
        speed =
            if fl.less (fl.of_nat zero) speed then fl.times speed (fl.of_nat 1000000) else speed;
        mtu = num_field m "eth_mtu";
      }

  -- the methods that return no data where a table is missing, and panic where it is no object
  unfoldable pub interfaces_of : Option (List (Json F)) → Answer (List (InterfaceData F))
  interfaces_of none = panics
  interfaces_of (some rows) = returns (map interface_of (objects rows)) none

  unfoldable pub collect_interfaces : (String → Error ⊎ Fields F) → Answer (List (InterfaceData F))
  collect_interfaces run =
      on_answer (run "show interface | json") (λ err. returns [] (some err))
        (λ fields. interfaces_of (table_rows "ROW_interface" (find "TABLE_interface" fields)))

  unfoldable pub no_optic : OpticData F
  no_optic = record {
    rx_power = fl.of_nat zero;
    tx_power = fl.of_nat zero;
    temp = fl.of_nat zero;
    voltage = fl.of_nat zero;
    bias_current = fl.of_nat zero;
  }

  unfoldable pub optic_row : Fields F → OpticData F
  optic_row s = record {
    rx_power = num_field s "rx_pwr";
    tx_power = num_field s "tx_pwr";
    temp = num_field s "temperature";
    voltage = num_field s "voltage";
    bias_current = num_field s "bias_current";
  }

  -- the switch on `sfpData["ROW_sfp_info"]`: of a list of rows, the last object counts
  unfoldable pub optic_rows : Option (Json F) → OpticData F
  optic_rows (some (array vs)) = each (λ optic s. optic_row s) no_optic (objects (items vs))
  optic_rows (some (object s)) = optic_row s
  optic_rows other = no_optic

  unfoldable pub optic_of : Option (Json F) → OpticData F
  optic_of (some (object sfp)) = optic_rows (find "ROW_sfp_info" sfp)
  optic_of other = no_optic

  -- one row of the loop
  unfoldable pub add_optic : Map (OpticData F) → Fields F → Map (OpticData F)
  add_optic result m =
      let name = string_field m "interface" in
      let optic = optic_of (find "TABLE_sfp_info" m) in
      let is_dark =
        fl.same optic.rx_power (fl.of_nat zero)
        && fl.same optic.tx_power (fl.of_nat zero)
        && fl.same optic.temp (fl.of_nat zero) in
      if name == "" then result else if is_dark then result else insert name optic result

  unfoldable pub optics_of : Option (List (Json F)) → Answer (Map (OpticData F))
  optics_of none = panics
  optics_of (some rows) = returns (each add_optic [] (objects rows)) none

  unfoldable pub collect_optics : (String → Error ⊎ Fields F) → Answer (Map (OpticData F))
  collect_optics run =
      on_answer (run "show interface transceiver | json") (λ err. returns [] none)
        (λ fields. optics_of (table_rows "ROW_interface" (find "TABLE_interface" fields)))

  unfoldable pub resources_of : Fields F → ResourceData F
  resources_of fields = record {
    cpu_usage = fl.plus (num_field fields "cpu_state_user") (num_field fields "cpu_state_kernel");
    cpu_5sec = num_field fields "load_avg_5min";
    cpu_1min = fl.of_nat zero;
    cpu_5min = fl.of_nat zero;
    mem_total = num_field fields "memory_usage_total";
    mem_used = num_field fields "memory_usage_used";
    mem_free = num_field fields "memory_usage_free";
  }

  unfoldable pub no_resources : ResourceData F
  no_resources = record {
    cpu_usage = fl.of_nat zero;
    cpu_5sec = fl.of_nat zero;
    cpu_1min = fl.of_nat zero;
    cpu_5min = fl.of_nat zero;
    mem_total = fl.of_nat zero;
    mem_used = fl.of_nat zero;
    mem_free = fl.of_nat zero;
  }

  unfoldable pub collect_resources : (String → Error ⊎ Fields F) → Answer (ResourceData F)
  collect_resources run =
      on_answer (run "show system resources | json") (λ err. returns no_resources (some err))
        (λ fields. returns (resources_of fields) none)

  unfoldable pub process_of : Fields F → ProcessData F
  process_of m = record {
    name = string_field m "process";
    cpu = num_field m "cpu_percent";
    runtime = num_field m "runtime";
  }

  unfoldable pub processes_of : ℤ → Option (List (Json F)) → Answer (List (ProcessData F))
  processes_of limit none = panics
  processes_of limit (some rows) = returns (map process_of (objects (within_limit limit rows))) none

  unfoldable pub collect_processes : (String → Error ⊎ Fields F) → ℤ → Answer (List (ProcessData F))
  collect_processes run limit =
      on_answer (run "show processes cpu | json") (λ err. returns [] (some err))
        (λ fields.
          processes_of limit (table_rows "ROW_process_cpu" (find "TABLE_process_cpu" fields)))
