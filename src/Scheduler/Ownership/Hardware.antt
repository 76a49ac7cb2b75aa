-- ===== src/Scheduler/Ownership/Hardware.antt =====
-- The calls that report the hardware of a device are its own.
use gcisco_exporter.Base.{◌≡◌, refl, Bool, true, Map, All, All-append}
use gcisco_exporter.Float.{Float64}
use gcisco_exporter.Config.{MetricSelection, Device}
use gcisco_exporter.Metrics.Setters.Health.{
  set_fan_status, set_module_status, set_power_redundancy_status, set_power_supply_status,
  set_stack_member_status, set_temperature,
}
use gcisco_exporter.Provider.Json.{HardwareData}
use gcisco_exporter.Provider.Cli.{NxosEnvironment, IosxeEnvironment}
use gcisco_exporter.Scheduler.Collect.Calls.{each_entry}
use gcisco_exporter.Scheduler.Collect.Json.{hardware_calls}
use gcisco_exporter.Scheduler.Collect.Nxos.{nxos_environment_calls}
use gcisco_exporter.Scheduler.Collect.Iosxe.{iosxe_environment_calls}
use gcisco_exporter.Scheduler.Ownership.Calls.{All-each_entry}
use gcisco_exporter.Scheduler.Ownership.{traits, traits-Reported, Reported}

module _ (F : Type 0) ⦃fl : Float64 F⦄ (ms : MetricSelection) (d : Device) where
  set_temperature-Reported :
      (m : Map F)
      → ms.hardware_health ≡ true
      → All (Reported {F = F} ms d) (each_entry (set_temperature d.name d.host) m)
  unfolding set_temperature traits
  set_temperature-Reported m h =
      All-each_entry (Reported {F = F} ms d) (set_temperature d.name d.host) m (λ k v.
        traits-Reported {F = F} ms d ms.hardware_health (set_temperature d.name d.host k v) h refl)

  set_fan_status-Reported :
      (m : Map Bool)
      → ms.hardware_health ≡ true
      → All (Reported {F = F} ms d) (each_entry (set_fan_status d.name d.host) m)
  unfolding set_fan_status traits
  set_fan_status-Reported m h =
      All-each_entry (Reported {F = F} ms d) (set_fan_status d.name d.host) m (λ k v.
        traits-Reported {F = F} ms d ms.hardware_health (set_fan_status d.name d.host k v) h refl)

  set_power_supply_status-Reported :
      (m : Map Bool)
      → ms.hardware_health ≡ true
      → All (Reported {F = F} ms d) (each_entry (set_power_supply_status d.name d.host) m)
  unfolding set_power_supply_status traits
  set_power_supply_status-Reported m h =
      All-each_entry (Reported {F = F} ms d) (set_power_supply_status d.name d.host) m (λ k v.
        traits-Reported {F = F} ms d ms.hardware_health (set_power_supply_status d.name d.host k v)
          h refl)

  set_module_status-Reported :
      (m : Map Bool)
      → ms.hardware_health ≡ true
      → All (Reported {F = F} ms d) (each_entry (set_module_status d.name d.host) m)
  unfolding set_module_status traits
  set_module_status-Reported m h =
      All-each_entry (Reported {F = F} ms d) (set_module_status d.name d.host) m (λ k v.
        traits-Reported {F = F} ms d ms.hardware_health (set_module_status d.name d.host k v) h
          refl)

  set_stack_member_status-Reported :
      (m : Map Bool)
      → ms.hardware_health ≡ true
      → All (Reported {F = F} ms d) (each_entry (set_stack_member_status d.name d.host) m)
  unfolding set_stack_member_status traits
  set_stack_member_status-Reported m h =
      All-each_entry (Reported {F = F} ms d) (set_stack_member_status d.name d.host) m (λ k v.
        traits-Reported {F = F} ms d ms.hardware_health (set_stack_member_status d.name d.host k v)
          h refl)

  redundancy-Reported :
      (b : Bool)
      → ms.hardware_health ≡ true
      → Reported {F = F} ms d (set_power_redundancy_status d.name d.host b)
  unfolding set_power_redundancy_status traits
  redundancy-Reported b h = traits-Reported {F = F} ms d ms.hardware_health _ h refl

  pub hardware_calls-Reported :
      (hw : HardwareData F)
      → ms.hardware_health ≡ true
      → All (Reported {F = F} ms d) (hardware_calls d hw)
  unfolding hardware_calls
  hardware_calls-Reported hw h =
      All-append (Reported {F = F} ms d) _ _ (set_temperature-Reported hw.temperature h) (
        All-append (Reported {F = F} ms d) _ _ (set_fan_status-Reported hw.fan_status h) (
          All-append (Reported {F = F} ms d) _ _
            (set_power_supply_status-Reported hw.power_supply h)
            (
              redundancy-Reported hw.power_redundant h,
              All-append (Reported {F = F} ms d) _ _ (set_module_status-Reported hw.module_status h)
                  (set_stack_member_status-Reported hw.stack_member_status h),
            )))

  pub nxos_environment_calls-Reported :
      (e : NxosEnvironment F)
      → ms.hardware_health ≡ true
      → All (Reported {F = F} ms d) (nxos_environment_calls d e)
  unfolding nxos_environment_calls
  nxos_environment_calls-Reported e h =
      All-append (Reported {F = F} ms d) _ _ (set_fan_status-Reported e.fan_status h) (
        All-append (Reported {F = F} ms d) _ _ (set_power_supply_status-Reported e.power_supply h)
          (redundancy-Reported e.power_redund h, set_temperature-Reported e.temperature h))

  pub iosxe_environment_calls-Reported :
      (e : IosxeEnvironment F)
      → ms.hardware_health ≡ true
      → All (Reported {F = F} ms d) (iosxe_environment_calls d e)
  unfolding iosxe_environment_calls
  iosxe_environment_calls-Reported e h =
      All-append (Reported {F = F} ms d) _ _ (set_fan_status-Reported e.fan_status h) (
        All-append (Reported {F = F} ms d) _ _ (set_power_supply_status-Reported e.power_supply h)
          (set_temperature-Reported e.temperature h))
