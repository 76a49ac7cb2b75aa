-- ===== src/Metrics/Setters/Interface.antt =====
-- internal/metrics/metrics.go: the setters of the interface, optic vectors.
use gcisco_exporter.Base.{String, Bool, [], ◌∷◌, if◌then◌else◌}
use gcisco_exporter.Float.{Float64}
use gcisco_exporter.Metrics.{set, add, Call}
use gcisco_exporter.Metrics.{
  iface_admin_up, iface_flaps, iface_mtu, iface_oper_up, iface_queue_drops, iface_resets,
  iface_rx_bytes, iface_rx_crc_errors, iface_rx_discards, iface_rx_drops, iface_rx_errors,
  iface_rx_frame, iface_rx_giants, iface_rx_runts, iface_speed, iface_tx_bytes, iface_tx_discards,
  iface_tx_drops, iface_tx_errors, optic_bias_current, optic_rx_power, optic_temp, optic_tx_power,
  optic_voltage,
}

module _ {F : Type 0} ⦃fl : Float64 F⦄ where
  unfoldable pub set_interface_admin_up : String → String → String → Bool → Call F
  set_interface_admin_up device host iface up = record {
    metric = iface_admin_up;
    labels = device ∷ host ∷ iface ∷ [];
    op = set (if up then fl.of_nat 1 else fl.of_nat 0);
  }

  unfoldable pub set_interface_oper_up : String → String → String → Bool → Call F
  set_interface_oper_up device host iface up = record {
    metric = iface_oper_up;
    labels = device ∷ host ∷ iface ∷ [];
    op = set (if up then fl.of_nat 1 else fl.of_nat 0);
  }

  unfoldable pub set_interface_rx_bytes : String → String → String → F → Call F
  set_interface_rx_bytes device host iface bytes = record {
    metric = iface_rx_bytes;
    labels = device ∷ host ∷ iface ∷ [];
    op = add bytes;
  }

  unfoldable pub set_interface_tx_bytes : String → String → String → F → Call F
  set_interface_tx_bytes device host iface bytes = record {
    metric = iface_tx_bytes;
    labels = device ∷ host ∷ iface ∷ [];
    op = add bytes;
  }

  unfoldable pub set_interface_rx_errors : String → String → String → F → Call F
  set_interface_rx_errors device host iface errors = record {
    metric = iface_rx_errors;
    labels = device ∷ host ∷ iface ∷ [];
    op = add errors;
  }

  unfoldable pub set_interface_tx_errors : String → String → String → F → Call F
  set_interface_tx_errors device host iface errors = record {
    metric = iface_tx_errors;
    labels = device ∷ host ∷ iface ∷ [];
    op = add errors;
  }

  unfoldable pub set_interface_rx_crc_errors : String → String → String → F → Call F
  set_interface_rx_crc_errors device host iface errors = record {
    metric = iface_rx_crc_errors;
    labels = device ∷ host ∷ iface ∷ [];
    op = add errors;
  }

  unfoldable pub set_interface_rx_frame_errors : String → String → String → F → Call F
  set_interface_rx_frame_errors device host iface errors = record {
    metric = iface_rx_frame;
    labels = device ∷ host ∷ iface ∷ [];
    op = add errors;
  }

  unfoldable pub set_interface_rx_runts : String → String → String → F → Call F
  set_interface_rx_runts device host iface count = record {
    metric = iface_rx_runts;
    labels = device ∷ host ∷ iface ∷ [];
    op = add count;
  }

  unfoldable pub set_interface_rx_giants : String → String → String → F → Call F
  set_interface_rx_giants device host iface count = record {
    metric = iface_rx_giants;
    labels = device ∷ host ∷ iface ∷ [];
    op = add count;
  }

  unfoldable pub set_interface_rx_drops : String → String → String → F → Call F
  set_interface_rx_drops device host iface drops = record {
    metric = iface_rx_drops;
    labels = device ∷ host ∷ iface ∷ [];
    op = add drops;
  }

  unfoldable pub set_interface_tx_drops : String → String → String → F → Call F
  set_interface_tx_drops device host iface drops = record {
    metric = iface_tx_drops;
    labels = device ∷ host ∷ iface ∷ [];
    op = add drops;
  }

  unfoldable pub set_interface_rx_discards : String → String → String → F → Call F
  set_interface_rx_discards device host iface discards = record {
    metric = iface_rx_discards;
    labels = device ∷ host ∷ iface ∷ [];
    op = add discards;
  }

  unfoldable pub set_interface_tx_discards : String → String → String → F → Call F
  set_interface_tx_discards device host iface discards = record {
    metric = iface_tx_discards;
    labels = device ∷ host ∷ iface ∷ [];
    op = add discards;
  }

  unfoldable pub set_interface_resets : String → String → String → F → Call F
  set_interface_resets device host iface resets = record {
    metric = iface_resets;
    labels = device ∷ host ∷ iface ∷ [];
    op = add resets;
  }

  unfoldable pub set_interface_flaps : String → String → String → F → Call F
  set_interface_flaps device host iface flaps = record {
    metric = iface_flaps;
    labels = device ∷ host ∷ iface ∷ [];
    op = add flaps;
  }

  unfoldable pub set_interface_speed : String → String → String → F → Call F
  set_interface_speed device host iface speed = record {
    metric = iface_speed;
    labels = device ∷ host ∷ iface ∷ [];
    op = set speed;
  }

  unfoldable pub set_interface_mtu : String → String → String → F → Call F
  set_interface_mtu device host iface mtu = record {
    metric = iface_mtu;
    labels = device ∷ host ∷ iface ∷ [];
    op = set mtu;
  }

  unfoldable pub set_interface_queue_drops : String → String → String → String → F → Call F
  set_interface_queue_drops device host iface queue drops = record {
    metric = iface_queue_drops;
    labels = device ∷ host ∷ iface ∷ queue ∷ [];
    op = add drops;
  }

  unfoldable pub set_optic_rx_power : String → String → String → F → Call F
  set_optic_rx_power device host iface dbm = record {
    metric = optic_rx_power;
    labels = device ∷ host ∷ iface ∷ [];
    op = set dbm;
  }

  unfoldable pub set_optic_tx_power : String → String → String → F → Call F
  set_optic_tx_power device host iface dbm = record {
    metric = optic_tx_power;
    labels = device ∷ host ∷ iface ∷ [];
    op = set dbm;
  }

  unfoldable pub set_optic_temperature : String → String → String → F → Call F
  set_optic_temperature device host iface celsius = record {
    metric = optic_temp;
    labels = device ∷ host ∷ iface ∷ [];
    op = set celsius;
  }

  unfoldable pub set_optic_voltage : String → String → String → F → Call F
  set_optic_voltage device host iface voltage = record {
    metric = optic_voltage;
    labels = device ∷ host ∷ iface ∷ [];
    op = set voltage;
  }

  unfoldable pub set_optic_bias_current : String → String → String → F → Call F
  set_optic_bias_current device host iface ma = record {
    metric = optic_bias_current;
    labels = device ∷ host ∷ iface ∷ [];
    op = set ma;
  }
