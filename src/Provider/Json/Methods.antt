-- ===== src/Provider/Json/Methods.antt =====
-- internal/provider/json/json.go: the provider of a device, as the scheduler calls it. `execute` is
-- `p.client.Execute` at an instant, and `decode` is `json.Unmarshal`.
use gcisco_exporter.Base.{ℕ, String, ◌⊎◌}
use gcisco_exporter.Error.{Error}
use gcisco_exporter.Strings.{Chars}
use gcisco_exporter.Float.{Float64}
use gcisco_exporter.Config.{Device}
use gcisco_exporter.Provider.Json.{JsonProvider}
use gcisco_exporter.Provider.Json.Value.{Fields}
use gcisco_exporter.Provider.Json.Exec.{exec}
use gcisco_exporter.Provider.Json.System.{
  collect_system, collect_interfaces, collect_optics, collect_resources, collect_processes,
}
use gcisco_exporter.Provider.Json.Switching.{
  collect_stp, collect_mac, collect_vlans, collect_l3_tables,
}
use gcisco_exporter.Provider.Json.Channels.{collect_port_channels}
use gcisco_exporter.Provider.Json.Hardware.{collect_hardware, collect_system_info, collect_capacity}

module _ {F : Type 0} ⦃fl : Float64 F⦄ (decode : Chars → String ⊎ Fields F)
    (execute : ℕ → Device → String → Error ⊎ String) where
  unfoldable pub run_json : ℕ → Device → String → Error ⊎ Fields F
  run_json t d cmd = exec decode (execute t d cmd)

  unfoldable pub json_provider : JsonProvider F
  json_provider = record {
    collect_system = λ t d. collect_system (run_json t d);
    collect_resources = λ t d. collect_resources (run_json t d);
    collect_processes = λ t d limit. collect_processes (run_json t d) limit;
    collect_hardware = λ t d. collect_hardware (run_json t d);
    collect_interfaces = λ t d. collect_interfaces (run_json t d);
    collect_optics = λ t d. collect_optics (run_json t d);
    collect_stp = λ t d. collect_stp (run_json t d);
    collect_mac = λ t d. collect_mac (run_json t d);
    collect_vlans = λ t d. collect_vlans (run_json t d);
    collect_port_channels = λ t d. collect_port_channels (run_json t d);
    collect_l3_tables = λ t d. collect_l3_tables (run_json t d);
    collect_system_info = λ t d. collect_system_info (run_json t d);
    collect_capacity = λ t d. collect_capacity (run_json t d);
  }
