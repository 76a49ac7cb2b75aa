-- ===== src/Metrics/Vecs/Health.antt =====
-- internal/metrics/metrics.go: `NewCollector`, the vectors of hardware, maintenance and capacity.
use gcisco_exporter.Base.{[], ◌∷◌}
use gcisco_exporter.Metrics.{
  temperature, fan_status, power_supply, power_redundancy, module_status, stack_member_status,
  ntp_synced, config_changes, reload_events, license_status, flash_utilization,
  port_utilization_ratio, transceiver_count, buffer_utilization, queue_utilization,
}
use gcisco_exporter.Metrics.Vecs.Options.{Vecs, counter_vec, gauge_vec}

unfoldable pub hardware_vecs : Vecs
hardware_vecs =
    (temperature, gauge_vec "cisco_temperature_celsius" ("device" ∷ "host" ∷ "sensor" ∷ []))
    ∷ (fan_status, gauge_vec "cisco_fan_status" ("device" ∷ "host" ∷ "fan" ∷ []))
    ∷ (power_supply, gauge_vec "cisco_power_supply_status" ("device" ∷ "host" ∷ "supply" ∷ []))
    ∷ (power_redundancy, gauge_vec "cisco_power_redundancy_status" ("device" ∷ "host" ∷ []))
    ∷ (module_status, gauge_vec "cisco_module_status" ("device" ∷ "host" ∷ "module" ∷ []))
    ∷ (
      stack_member_status,
      gauge_vec "cisco_stack_member_status" ("device" ∷ "host" ∷ "member" ∷ []),
    )
    ∷ []

unfoldable pub maintenance_vecs : Vecs
maintenance_vecs =
    (ntp_synced, gauge_vec "cisco_ntp_synced" ("device" ∷ "host" ∷ []))
    ∷ (config_changes, counter_vec "cisco_config_changes_total" ("device" ∷ "host" ∷ []))
    ∷ (reload_events, counter_vec "cisco_reload_events_total" ("device" ∷ "host" ∷ []))
    ∷ (license_status, gauge_vec "cisco_license_status" ("device" ∷ "host" ∷ "feature" ∷ []))
    ∷ (flash_utilization, gauge_vec "cisco_flash_utilization_percent" ("device" ∷ "host" ∷ []))
    ∷ []

unfoldable pub capacity_vecs : Vecs
capacity_vecs =
    (port_utilization_ratio, gauge_vec "cisco_port_utilization_ratio" ("device" ∷ "host" ∷ []))
    ∷ (transceiver_count, gauge_vec "cisco_transceiver_count" ("device" ∷ "host" ∷ []))
    ∷ (
      buffer_utilization,
      gauge_vec "cisco_buffer_utilization_percent" ("device" ∷ "host" ∷ "pool" ∷ []),
    )
    ∷ (
      queue_utilization,
      gauge_vec "cisco_queue_utilization_percent" ("device" ∷ "host" ∷ "queue" ∷ []),
    )
    ∷ []
