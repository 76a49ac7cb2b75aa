-- ===== src/Metrics/Vecs/Device.antt =====
-- internal/metrics/metrics.go: `NewCollector`, the vectors of a device, its processes and the exporter.
use gcisco_exporter.Base.{[], ◌∷◌}
use gcisco_exporter.Metrics.{
  device_up, device_uptime, device_info, cpu_usage, cpu_5sec, cpu_1min, cpu_5min, mem_total,
  mem_used, mem_free, proc_cpu, proc_runtime, collection_method, last_collection,
  collection_duration, collection_success,
}
use gcisco_exporter.Metrics.Vecs.Options.{Vecs, gauge_vec}

unfoldable pub system_vecs : Vecs
system_vecs =
    (device_up, gauge_vec "cisco_device_up" ("device" ∷ "host" ∷ "type" ∷ []))
    ∷ (device_uptime, gauge_vec "cisco_device_uptime_seconds" ("device" ∷ "host" ∷ []))
    ∷ (
      device_info,
      gauge_vec "cisco_device_info" ("device" ∷ "host" ∷ "model" ∷ "version" ∷ "serial" ∷ []),
    )
    ∷ (cpu_usage, gauge_vec "cisco_cpu_usage_percent" ("device" ∷ "host" ∷ []))
    ∷ (cpu_5sec, gauge_vec "cisco_cpu_5sec_percent" ("device" ∷ "host" ∷ []))
    ∷ (cpu_1min, gauge_vec "cisco_cpu_1min_percent" ("device" ∷ "host" ∷ []))
    ∷ (cpu_5min, gauge_vec "cisco_cpu_5min_percent" ("device" ∷ "host" ∷ []))
    ∷ (mem_total, gauge_vec "cisco_memory_total_bytes" ("device" ∷ "host" ∷ []))
    ∷ (mem_used, gauge_vec "cisco_memory_used_bytes" ("device" ∷ "host" ∷ []))
    ∷ (mem_free, gauge_vec "cisco_memory_free_bytes" ("device" ∷ "host" ∷ []))
    ∷ []

unfoldable pub process_vecs : Vecs
process_vecs =
    (proc_cpu, gauge_vec "cisco_process_cpu_percent" ("device" ∷ "host" ∷ "process" ∷ []))
    ∷ (proc_runtime, gauge_vec "cisco_process_runtime_seconds" ("device" ∷ "host" ∷ "process" ∷ []))
    ∷ []

unfoldable pub exporter_vecs : Vecs
exporter_vecs =
    (collection_method, gauge_vec "cisco_collection_method" ("device" ∷ "host" ∷ []))
    ∷ (
      last_collection,
      gauge_vec "cisco_exporter_last_collection_timestamp" ("device" ∷ "host" ∷ []),
    )
    ∷ (
      collection_duration,
      gauge_vec "cisco_exporter_collection_duration_seconds" ("device" ∷ "host" ∷ []),
    )
    ∷ (collection_success, gauge_vec "cisco_exporter_collection_success" ("device" ∷ "host" ∷ []))
    ∷ []
