-- ===== src/Metrics/Setters/Device.antt =====
-- internal/metrics/metrics.go: the setters of the system, process, exporter vectors.
use gcisco_exporter.Base.{String, Bool, [], ◌∷◌, if◌then◌else◌}
use gcisco_exporter.Float.{Float64}
use gcisco_exporter.Metrics.{set, Call}
use gcisco_exporter.Metrics.{
  collection_duration, collection_method, collection_success, cpu_1min, cpu_5min, cpu_5sec,
  cpu_usage, device_info, device_up, device_uptime, last_collection, mem_free, mem_total, mem_used,
  proc_cpu, proc_runtime,
}

module _ {F : Type 0} ⦃fl : Float64 F⦄ where
  unfoldable pub set_device_up : String → String → String → Bool → Call F
  set_device_up device host device_type up = record {
    metric = device_up;
    labels = device ∷ host ∷ device_type ∷ [];
    op = set (if up then fl.of_nat 1 else fl.of_nat 0);
  }

  unfoldable pub set_device_uptime : String → String → F → Call F
  set_device_uptime device host seconds = record {
    metric = device_uptime;
    labels = device ∷ host ∷ [];
    op = set seconds;
  }

  unfoldable pub set_device_info : String → String → String → String → String → Call F
  set_device_info device host model version serial = record {
    metric = device_info;
    labels = device ∷ host ∷ model ∷ version ∷ serial ∷ [];
    op = set (fl.of_nat 1);
  }

  unfoldable pub set_cpu_usage : String → String → F → Call F
  set_cpu_usage device host percent = record {
    metric = cpu_usage;
    labels = device ∷ host ∷ [];
    op = set percent;
  }

  unfoldable pub set_cpu_5sec : String → String → F → Call F
  set_cpu_5sec device host percent = record {
    metric = cpu_5sec;
    labels = device ∷ host ∷ [];
    op = set percent;
  }

  unfoldable pub set_cpu_1min : String → String → F → Call F
  set_cpu_1min device host percent = record {
    metric = cpu_1min;
    labels = device ∷ host ∷ [];
    op = set percent;
  }

  unfoldable pub set_cpu_5min : String → String → F → Call F
  set_cpu_5min device host percent = record {
    metric = cpu_5min;
    labels = device ∷ host ∷ [];
    op = set percent;
  }

  unfoldable pub set_memory_total : String → String → F → Call F
  set_memory_total device host bytes = record {
    metric = mem_total;
    labels = device ∷ host ∷ [];
    op = set bytes;
  }

  unfoldable pub set_memory_used : String → String → F → Call F
  set_memory_used device host bytes = record {
    metric = mem_used;
    labels = device ∷ host ∷ [];
    op = set bytes;
  }

  unfoldable pub set_memory_free : String → String → F → Call F
  set_memory_free device host bytes = record {
    metric = mem_free;
    labels = device ∷ host ∷ [];
    op = set bytes;
  }

  unfoldable pub set_process_cpu : String → String → String → F → Call F
  set_process_cpu device host process percent = record {
    metric = proc_cpu;
    labels = device ∷ host ∷ process ∷ [];
    op = set percent;
  }

  unfoldable pub set_process_runtime : String → String → String → F → Call F
  set_process_runtime device host process seconds = record {
    metric = proc_runtime;
    labels = device ∷ host ∷ process ∷ [];
    op = set seconds;
  }

  unfoldable pub set_collection_method : String → String → F → Call F
  set_collection_method device host method = record {
    metric = collection_method;
    labels = device ∷ host ∷ [];
    op = set method;
  }

  unfoldable pub set_last_collection : String → String → F → Call F
  set_last_collection device host ts = record {
    metric = last_collection;
    labels = device ∷ host ∷ [];
    op = set ts;
  }

  unfoldable pub set_collection_duration : String → String → F → Call F
  set_collection_duration device host seconds = record {
    metric = collection_duration;
    labels = device ∷ host ∷ [];
    op = set seconds;
  }

  unfoldable pub set_collection_success : String → String → Bool → Call F
  set_collection_success device host success = record {
    metric = collection_success;
    labels = device ∷ host ∷ [];
    op = set (if success then fl.of_nat 1 else fl.of_nat 0);
  }
