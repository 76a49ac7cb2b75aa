-- ===== src/Metrics/Vecs/Interface.antt =====
-- internal/metrics/metrics.go: `NewCollector`, the vectors of interfaces and optics.
use gcisco_exporter.Base.{[], ◌∷◌}
use gcisco_exporter.Metrics.{
  iface_admin_up, iface_oper_up, iface_rx_bytes, iface_tx_bytes, iface_rx_errors, iface_tx_errors,
  iface_rx_crc_errors, iface_rx_frame, iface_rx_runts, iface_rx_giants, iface_rx_drops,
  iface_tx_drops, iface_rx_discards, iface_tx_discards, iface_resets, iface_flaps, iface_speed,
  iface_mtu, iface_queue_drops, optic_rx_power, optic_tx_power, optic_temp, optic_voltage,
  optic_bias_current,
}
use gcisco_exporter.Metrics.Vecs.Options.{Vecs, counter_vec, gauge_vec}

unfoldable pub interface_vecs : Vecs
interface_vecs =
    (iface_admin_up, gauge_vec "cisco_interface_admin_up" ("device" ∷ "host" ∷ "interface" ∷ []))
    ∷ (iface_oper_up, gauge_vec "cisco_interface_oper_up" ("device" ∷ "host" ∷ "interface" ∷ []))
    ∷ (
      iface_rx_bytes,
      counter_vec "cisco_interface_rx_bytes_total" ("device" ∷ "host" ∷ "interface" ∷ []),
    )
    ∷ (
      iface_tx_bytes,
      counter_vec "cisco_interface_tx_bytes_total" ("device" ∷ "host" ∷ "interface" ∷ []),
    )
    ∷ (
      iface_rx_errors,
      counter_vec "cisco_interface_rx_errors_total" ("device" ∷ "host" ∷ "interface" ∷ []),
    )
    ∷ (
      iface_tx_errors,
      counter_vec "cisco_interface_tx_errors_total" ("device" ∷ "host" ∷ "interface" ∷ []),
    )
    ∷ (
      iface_rx_crc_errors,
      counter_vec "cisco_interface_rx_crc_errors_total" ("device" ∷ "host" ∷ "interface" ∷ []),
    )
    ∷ (
      iface_rx_frame,
      counter_vec "cisco_interface_rx_frame_errors_total" ("device" ∷ "host" ∷ "interface" ∷ []),
    )
    ∷ (
      iface_rx_runts,
      counter_vec "cisco_interface_rx_runts_total" ("device" ∷ "host" ∷ "interface" ∷ []),
    )
    ∷ (
      iface_rx_giants,
      counter_vec "cisco_interface_rx_giants_total" ("device" ∷ "host" ∷ "interface" ∷ []),
    )
    ∷ (
      iface_rx_drops,
      counter_vec "cisco_interface_rx_drops_total" ("device" ∷ "host" ∷ "interface" ∷ []),
    )
    ∷ (
      iface_tx_drops,
      counter_vec "cisco_interface_tx_drops_total" ("device" ∷ "host" ∷ "interface" ∷ []),
    )
    ∷ (
      iface_rx_discards,
      counter_vec "cisco_interface_rx_discards_total" ("device" ∷ "host" ∷ "interface" ∷ []),
    )
    ∷ (
      iface_tx_discards,
      counter_vec "cisco_interface_tx_discards_total" ("device" ∷ "host" ∷ "interface" ∷ []),
    )
    ∷ (
      iface_resets,
      counter_vec "cisco_interface_resets_total" ("device" ∷ "host" ∷ "interface" ∷ []),
    )
    ∷ (
      iface_flaps,
      counter_vec "cisco_interface_flaps_total" ("device" ∷ "host" ∷ "interface" ∷ []),
    )
    ∷ (iface_speed, gauge_vec "cisco_interface_speed_bps" ("device" ∷ "host" ∷ "interface" ∷ []))
    ∷ (iface_mtu, gauge_vec "cisco_interface_mtu" ("device" ∷ "host" ∷ "interface" ∷ []))
    ∷ (
      iface_queue_drops,
      counter_vec "cisco_interface_queue_drops_total"
          ("device" ∷ "host" ∷ "interface" ∷ "queue" ∷ []),
    )
    ∷ []

unfoldable pub optic_vecs : Vecs
optic_vecs =
    (optic_rx_power, gauge_vec "cisco_optic_rx_power_dbm" ("device" ∷ "host" ∷ "interface" ∷ []))
    ∷ (optic_tx_power, gauge_vec "cisco_optic_tx_power_dbm" ("device" ∷ "host" ∷ "interface" ∷ []))
    ∷ (
      optic_temp,
      gauge_vec "cisco_optic_temperature_celsius" ("device" ∷ "host" ∷ "interface" ∷ []),
    )
    ∷ (optic_voltage, gauge_vec "cisco_optic_voltage" ("device" ∷ "host" ∷ "interface" ∷ []))
    ∷ (
      optic_bias_current,
      gauge_vec "cisco_optic_bias_current_ma" ("device" ∷ "host" ∷ "interface" ∷ []),
    )
    ∷ []
