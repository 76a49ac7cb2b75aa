-- ===== src/Scheduler/Ownership/Single.antt =====
-- The calls that a shell session makes one at a time are the device's own.
use gcisco_exporter.Base.{◌≡◌, refl, Bool, true, [], ◌∷◌, All}
use gcisco_exporter.Float.{Float64}
use gcisco_exporter.Config.{MetricSelection, Device}
use gcisco_exporter.Metrics.Setters.Device.{set_cpu_usage}
use gcisco_exporter.Metrics.Setters.Health.{set_ntp_synced, set_flash_utilization}
use gcisco_exporter.Metrics.Setters.Switching.{
  set_arp_table_count, set_routing_table_utilization, set_mac_table_count,
}
use gcisco_exporter.Scheduler.Ownership.{traits, traits-Reported, Reported}

module _ (F : Type 0) ⦃fl : Float64 F⦄ (ms : MetricSelection) (d : Device) where
  pub cpu-Reported :
      (x : F)
      → ms.hardware_health ≡ true
      → All (Reported {F = F} ms d) (set_cpu_usage d.name d.host x ∷ [])
  unfolding set_cpu_usage traits
  cpu-Reported x h = (traits-Reported {F = F} ms d ms.hardware_health _ h refl, tt)

  pub ntp-Reported :
      (x : Bool)
      → ms.system_maintenance ≡ true
      → All (Reported {F = F} ms d) (set_ntp_synced d.name d.host x ∷ [])
  unfolding set_ntp_synced traits
  ntp-Reported x h = (traits-Reported {F = F} ms d ms.system_maintenance _ h refl, tt)

  pub flash-Reported :
      (x : F)
      → ms.system_maintenance ≡ true
      → All (Reported {F = F} ms d) (set_flash_utilization d.name d.host x ∷ [])
  unfolding set_flash_utilization traits
  flash-Reported x h = (traits-Reported {F = F} ms d ms.system_maintenance _ h refl, tt)

  pub arp-Reported :
      (x : F)
      → ms.layer3_tables ≡ true
      → All (Reported {F = F} ms d) (set_arp_table_count d.name d.host x ∷ [])
  unfolding set_arp_table_count traits
  arp-Reported x h = (traits-Reported {F = F} ms d ms.layer3_tables _ h refl, tt)

  pub route-Reported :
      (x : F)
      → ms.layer3_tables ≡ true
      → All (Reported {F = F} ms d) (set_routing_table_utilization d.name d.host x ∷ [])
  unfolding set_routing_table_utilization traits
  route-Reported x h = (traits-Reported {F = F} ms d ms.layer3_tables _ h refl, tt)

  pub mac-Reported :
      (x : F)
      → ms.layer2_stability ≡ true
      → All (Reported {F = F} ms d) (set_mac_table_count d.name d.host x ∷ [])
  unfolding set_mac_table_count traits
  mac-Reported x h = (traits-Reported {F = F} ms d ms.layer2_stability _ h refl, tt)
