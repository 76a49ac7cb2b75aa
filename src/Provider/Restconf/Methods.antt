-- ===== src/Provider/Restconf/Methods.antt =====
-- internal/provider/restconf/restconf.go: the methods of the provider.
use gcisco_exporter.Base.{
  zero, String, Bool, not, ◌&&◌, ◌||◌, Option, none, some, List, [], ◌∷◌, map, ◌⊎◌, inl, inr, ◌==◌,
  if◌then◌else◌,
}
use gcisco_exporter.Int.{ℤ, pos}
use gcisco_exporter.Error.{Error, message, Answer, returns}
use gcisco_exporter.Strings.{chars, contains_lower}
use gcisco_exporter.Float.{Float64}
use gcisco_exporter.Provider.Json.{SystemData, ProcessData}
use gcisco_exporter.Provider.Json.Value.{Json, Fields, number, objects, find}
use gcisco_exporter.Provider.Json.Exec.{on_answer}
use gcisco_exporter.Provider.Json.System.{within_limit}
use gcisco_exporter.Provider.Basic.{BasicInterface, BasicResources}
use gcisco_exporter.Provider.Restconf.Request.{
  Http, object_at, list_at, string_at, or_else, number_from, float_from,
}

module _ {F : Type 0} ⦃fl : Float64 F⦄ (http : Http F) (request : String → Error ⊎ Fields F) where
  unfoldable pub empty_system : SystemData F
  empty_system = record {
    hostname = "";
    version = "";
    model = "";
    serial = "";
    uptime = fl.of_nat zero;
  }

  unfoldable pub shown : Option (Json F) → String
  shown none = ""
  shown (some v) = http.show_value v

  -- the loop over the inventory, which the first chassis ends
  unfoldable pub chassis_of : List (Fields F) → SystemData F → SystemData F
  chassis_of [] sys = sys
  chassis_of (m ∷ rows) sys =
      let later = chassis_of rows sys in
      if or_else "" (string_at "hw-type" m) == "hw-type-chassis"
      then record sys {
        model = or_else sys.model (string_at "hw-description" m);
        serial = or_else sys.serial (string_at "serial-number" m);
      }
      else later

  unfoldable pub inventory_rows : Error ⊎ Fields F → List (Fields F)
  inventory_rows (inl err) = []
  inventory_rows (inr result) =
      elim (object_at "Cisco-IOS-XE-device-hardware-oper:device-hardware" result) [
        | none ↦ []
        | some hw ↦ objects (or_else [] (list_at "device-inventory" hw))
      ]

  unfoldable pub system_from : Option (Fields F) → Answer (SystemData F)
  system_from none = returns empty_system (some (message "unexpected native response format"))
  system_from (some native) =
      let sys = record empty_system {
        version = shown (find "version" native);
        hostname = shown (find "hostname" native);
      } in
      let hardware =
        request "/Cisco-IOS-XE-device-hardware-oper:device-hardware-data/device-hardware" in
      returns (chassis_of (inventory_rows hardware) sys) none

  unfoldable pub collect_system : Answer (SystemData F)
  collect_system =
      on_answer (request "/Cisco-IOS-XE-native:native") (λ err. returns empty_system (some err))
        (λ result. system_from (object_at "Cisco-IOS-XE-native:native" result))

  unfoldable pub is_oper_up : String → Bool
  is_oper_up status = status == "if-oper-state-up" || status == "if-oper-state-ready"

  unfoldable pub with_statistics : Option (Fields F) → BasicInterface F → BasicInterface F
  with_statistics none iface = iface
  with_statistics (some stats) iface = record iface {
    rx_bytes = number_from iface.rx_bytes (find "in-octets" stats);
    tx_bytes = number_from iface.tx_bytes (find "out-octets" stats);
    rx_errors = float_from iface.rx_errors (find "in-errors" stats);
    tx_errors = float_from iface.tx_errors (find "out-errors" stats);
  }

  unfoldable pub interface_from : Fields F → BasicInterface F
  interface_from m = with_statistics (object_at "statistics" m) (record {
    name = or_else "" (string_at "name" m);
    admin_up = or_else "" (string_at "admin-status" m) == "if-state-up";
    oper_up = is_oper_up (or_else "" (string_at "oper-status" m));
    rx_bytes = fl.of_nat zero;
    tx_bytes = fl.of_nat zero;
    rx_errors = fl.of_nat zero;
    tx_errors = fl.of_nat zero;
  })

  unfoldable pub interface_list : Option (List (Json F)) → Answer (List (BasicInterface F))
  interface_list none = returns [] (some (message "no interface list in response"))
  interface_list (some rows) = returns (map interface_from (objects rows)) none

  unfoldable pub interfaces_from : Option (Fields F) → Answer (List (BasicInterface F))
  interfaces_from none = returns [] (some (message "unexpected interfaces response format"))
  interfaces_from (some raw) = interface_list (list_at "interface" raw)

  unfoldable pub collect_interfaces : Answer (List (BasicInterface F))
  collect_interfaces =
      on_answer (request "/Cisco-IOS-XE-interfaces-oper:interfaces") (λ err. returns [] (some err))
        (λ result. interfaces_from (object_at "Cisco-IOS-XE-interfaces-oper:interfaces" result))

  unfoldable pub empty_resources : BasicResources F
  empty_resources = record {
    cpu_usage = fl.of_nat zero;
    mem_total = fl.of_nat zero;
    mem_used = fl.of_nat zero;
    mem_free = fl.of_nat zero;
  }

  unfoldable pub with_cpu : Error ⊎ Fields F → BasicResources F → BasicResources F
  with_cpu (inl err) res = res
  with_cpu (inr result) res =
      elim (object_at "Cisco-IOS-XE-process-cpu-oper:cpu-utilization" result) [
        | none ↦ res
        | some cpu ↦ record res { cpu_usage = float_from res.cpu_usage (find "five-seconds" cpu) }
      ]

  unfoldable pub is_processor : String → Bool
  is_processor name =
      contains_lower (chars name) "processor" && not (contains_lower (chars name) "reserve")

  -- the loop over the pools of memory, which the first processor pool ends
  unfoldable pub memory_of : List (Fields F) → BasicResources F → BasicResources F
  memory_of [] res = res
  memory_of (m ∷ rows) res =
      let later = memory_of rows res in
      if is_processor (or_else "" (string_at "name" m))
      then record res {
        mem_total = number_from res.mem_total (find "total-memory" m);
        mem_used = number_from res.mem_used (find "used-memory" m);
        mem_free = number_from res.mem_free (find "free-memory" m);
      }
      else later

  unfoldable pub with_memory : Error ⊎ Fields F → BasicResources F → BasicResources F
  with_memory (inl err) res = res
  with_memory (inr result) res =
      elim (object_at "Cisco-IOS-XE-memory-oper:memory-statistics" result) [
        | none ↦ res
        | some mem ↦ memory_of (objects (or_else [] (list_at "memory-statistic" mem))) res
      ]

  unfoldable pub collect_resources : Answer (BasicResources F)
  collect_resources =
      let res =
        with_cpu (request "/Cisco-IOS-XE-process-cpu-oper:cpu-usage/cpu-utilization")
          empty_resources in
      returns (with_memory (request "/Cisco-IOS-XE-memory-oper:memory-statistics") res) none

  unfoldable pub pid_of : Option (Json F) → ℤ
  pid_of (some (number v)) = http.int_of v
  pid_of other = pos zero

  unfoldable pub process_from : Fields F → ProcessData F
  process_from m =
      let name = or_else "" (string_at "name" m) in
      record {
        name = http.show_process name (pid_of (find "pid" m));
        cpu = number_from (fl.of_nat zero) (find "five-seconds" m);
        runtime = number_from (fl.of_nat zero) (find "total-run-time" m);
      }

  -- the list of processes, where it is there
  unfoldable pub process_rows : Option (Fields F) → List (Json F)
  process_rows none = []
  process_rows (some procs) = or_else [] (list_at "cpu-usage-process" procs)

  unfoldable pub processes_from : ℤ → Option (Fields F) → Answer (List (ProcessData F))
  processes_from limit none = returns [] (some (message "unexpected cpu-utilization format"))
  processes_from limit (some cpu) =
      let rows = within_limit limit (process_rows (object_at "cpu-usage-processes" cpu)) in
      returns (map process_from (objects rows)) none

  unfoldable pub collect_processes : ℤ → Answer (List (ProcessData F))
  collect_processes limit =
      on_answer (request "/Cisco-IOS-XE-process-cpu-oper:cpu-usage/cpu-utilization")
        (λ err. returns [] (some err))
        (λ result.
          processes_from limit (object_at "Cisco-IOS-XE-process-cpu-oper:cpu-utilization" result))
