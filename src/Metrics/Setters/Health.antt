-- ===== src/Metrics/Setters/Health.antt =====
-- internal/metrics/metrics.go: the setters of the hardware, maintenance, capacity vectors.
use gcisco_exporter.Base.{String, Bool, [], ◌∷◌, if◌then◌else◌}
use gcisco_exporter.Float.{Float64}
use gcisco_exporter.Metrics.{set, add, Call}
use gcisco_exporter.Metrics.{
  buffer_utilization, config_changes, fan_status, flash_utilization, license_status, module_status,
  ntp_synced, port_utilization_ratio, power_redundancy, power_supply, queue_utilization,
  reload_events, stack_member_status, temperature, transceiver_count,
}

module _ {F : Type 0} ⦃fl : Float64 F⦄ where
  unfoldable pub set_temperature : String → String → String → F → Call F
  set_temperature device host sensor celsius = record {
    metric = temperature;
    labels = device ∷ host ∷ sensor ∷ [];
    op = set celsius;
  }

  unfoldable pub set_fan_status : String → String → String → Bool → Call F
  set_fan_status device host fan healthy = record {
    metric = fan_status;
    labels = device ∷ host ∷ fan ∷ [];
    op = set (if healthy then fl.of_nat 1 else fl.of_nat 0);
  }

  unfoldable pub set_power_supply_status : String → String → String → Bool → Call F
  set_power_supply_status device host supply healthy = record {
    metric = power_supply;
    labels = device ∷ host ∷ supply ∷ [];
    op = set (if healthy then fl.of_nat 1 else fl.of_nat 0);
  }

  unfoldable pub set_power_redundancy_status : String → String → Bool → Call F
  set_power_redundancy_status device host redundant = record {
    metric = power_redundancy;
    labels = device ∷ host ∷ [];
    op = set (if redundant then fl.of_nat 1 else fl.of_nat 0);
  }

  unfoldable pub set_module_status : String → String → String → Bool → Call F
  set_module_status device host mod_name healthy = record {
    metric = module_status;
    labels = device ∷ host ∷ mod_name ∷ [];
    op = set (if healthy then fl.of_nat 1 else fl.of_nat 0);
  }

  unfoldable pub set_stack_member_status : String → String → String → Bool → Call F
  set_stack_member_status device host member active = record {
    metric = stack_member_status;
    labels = device ∷ host ∷ member ∷ [];
    op = set (if active then fl.of_nat 1 else fl.of_nat 0);
  }

  unfoldable pub set_ntp_synced : String → String → Bool → Call F
  set_ntp_synced device host synced = record {
    metric = ntp_synced;
    labels = device ∷ host ∷ [];
    op = set (if synced then fl.of_nat 1 else fl.of_nat 0);
  }

  unfoldable pub set_config_changes : String → String → F → Call F
  set_config_changes device host count = record {
    metric = config_changes;
    labels = device ∷ host ∷ [];
    op = add count;
  }

  unfoldable pub set_reload_events : String → String → F → Call F
  set_reload_events device host count = record {
    metric = reload_events;
    labels = device ∷ host ∷ [];
    op = add count;
  }

  unfoldable pub set_license_status : String → String → String → Bool → Call F
  set_license_status device host feature valid = record {
    metric = license_status;
    labels = device ∷ host ∷ feature ∷ [];
    op = set (if valid then fl.of_nat 1 else fl.of_nat 0);
  }

  unfoldable pub set_flash_utilization : String → String → F → Call F
  set_flash_utilization device host percent = record {
    metric = flash_utilization;
    labels = device ∷ host ∷ [];
    op = set percent;
  }

  unfoldable pub set_port_utilization_ratio : String → String → F → Call F
  set_port_utilization_ratio device host ratio = record {
    metric = port_utilization_ratio;
    labels = device ∷ host ∷ [];
    op = set ratio;
  }

  unfoldable pub set_transceiver_count : String → String → F → Call F
  set_transceiver_count device host count = record {
    metric = transceiver_count;
    labels = device ∷ host ∷ [];
    op = set count;
  }

  unfoldable pub set_buffer_utilization : String → String → String → F → Call F
  set_buffer_utilization device host pool percent = record {
    metric = buffer_utilization;
    labels = device ∷ host ∷ pool ∷ [];
    op = set percent;
  }

  unfoldable pub set_queue_utilization : String → String → String → F → Call F
  set_queue_utilization device host queue percent = record {
    metric = queue_utilization;
    labels = device ∷ host ∷ queue ∷ [];
    op = set percent;
  }
