-- ===== src/Scheduler/Ownership.antt =====
-- Which calls a collection may make: on its own device's series, with a label value for each label
-- name, and in the categories that the configuration selects.
pub mod Calls
pub mod Hardware
pub mod Tables
pub mod Single
use gcisco_exporter.Base.{
  ◌≡◌, refl, ◌∙◌, ap, String, Bool, true, Option, none, some, List, [], ◌∷◌, map, All, cons_inj,
}
use gcisco_exporter.Config.{MetricSelection, Device}
use gcisco_exporter.Float.{Float64}
use gcisco_exporter.Metrics.{Metric, device_uptime, Call, accepts}
use gcisco_exporter.Metrics.Category.{
  Category, hardware_health, interfaces, layer2_stability, etherchannel, layer3_tables,
  system_maintenance, capacity_trends, exporter, category,
}
use gcisco_exporter.Metrics.Vecs.{fits}

unfoldable pub enabled : MetricSelection → Category → Bool
enabled ms hardware_health = ms.hardware_health
enabled ms interfaces = ms.interfaces
enabled ms layer2_stability = ms.layer2_stability
enabled ms etherchannel = ms.etherchannel
enabled ms layer3_tables = ms.layer3_tables
enabled ms system_maintenance = ms.system_maintenance
enabled ms capacity_trends = ms.capacity_trends
enabled ms exporter = true

-- The selection that decides on a metric: that of its category, but the device's uptime is reported with
-- the hardware.
unfoldable pub is_selected : MetricSelection → Metric → Bool
unfolding enabled category
is_selected ms device_uptime = ms.hardware_health
is_selected ms m = enabled ms (category m)

-- the device and host of a series, its first two label values
unfoldable pub owner : List String → Option (String × String)
owner (name ∷ host ∷ rest) = some (name, host)
owner _ = none

pub record Owned {F : Type 0} (ms : MetricSelection) (d : Device) (c : Call F) : Type 0 where
  pub owner : owner c.labels ≡ some (d.name, d.host)
  pub arity : fits c ≡ true
  pub selected : is_selected ms c.metric ≡ true

abbrev Traits : Type 0
Traits = Option (String × String) × Bool × Bool × Bool

-- a call that is owned and does not panic
abbrev pub Reported : {F : Type 0} ⦃fl : Float64 F⦄ → MetricSelection → Device → Call F → Type 0
Reported ms d c = Owned ms d c × (accepts c.op ≡ true)

module _ {F : Type 0} ⦃fl : Float64 F⦄ (ms : MetricSelection) (d : Device) where
  unfoldable pub traits : Call F → Traits
  unfolding owner fits is_selected accepts
  traits c = (owner c.labels, fits c, is_selected ms c.metric, accepts c.op)

  traits_lem :
      (b a : Bool) (c : Call F)
      → b ≡ true
      → traits c ≡ (some (d.name, d.host), true, b, a)
      → Owned ms d c
  unfolding traits
  traits_lem b a c h e = record {
    owner = ap (λ (t : Traits). t.0) e;
    arity = ap (λ (t : Traits). t.1) e;
    selected = ap (λ (t : Traits). t.2) e ∙ h;
  }

  pub traits-Owned :
      (b : Bool) (c : Call F)
      → b ≡ true
      → traits c ≡ (some (d.name, d.host), true, b, accepts c.op)
      → Owned ms d c
  traits-Owned b c h e = traits_lem b (accepts c.op) c h e

  pub traits-Reported :
      (b : Bool) (c : Call F)
      → b ≡ true
      → traits c ≡ (some (d.name, d.host), true, b, true)
      → Reported ms d c
  unfolding traits
  traits-Reported b c h e = (traits_lem b true c h e, ap (λ (t : Traits). t.3) e)

  -- Of a list of calls that is written out, with the selection `b` of its category, by `refl`.
  pub All-Owned :
      (b : Bool) (cs : List (Call F))
      → b ≡ true
      → map traits cs ≡ map (λ c. (some (d.name, d.host), true, b, accepts c.op)) cs
      → All (Owned ms d) cs
  All-Owned b [] h e = tt
  All-Owned b (c ∷ cs) h e =
      let (first, others) = cons_inj _ _ _ _ e in
      (traits-Owned b c h first, All-Owned b cs h others)

  pub All-Reported :
      (b : Bool) (cs : List (Call F))
      → b ≡ true
      → map traits cs ≡ map (λ c. (some (d.name, d.host), true, b, true)) cs
      → All (Reported ms d) cs
  All-Reported b [] h e = tt
  All-Reported b (c ∷ cs) h e =
      let (first, others) = cons_inj _ _ _ _ e in
      (traits-Reported b c h first, All-Reported b cs h others)
