-- ===== src/Cache.antt =====
-- internal/cache/cache.go: the last result of each device. The mutex makes each method one step; the
-- time of an update is passed in. `D` is the type of what is stored.
pub mod Laws
use gcisco_exporter.Base.{ℕ, String, Option, List, [], ◌∷◌, Map, lookup, insert}

pub record DeviceMetrics (D : Type 0) : Type 0 where
  pub timestamp : ℕ
  pub entries : D

pub record Store (D : Type 0) : Type 0 where
  pub metrics : Map (DeviceMetrics D)

module _ {D : Type 0} where
  unfoldable pub new : Store D
  new = record { metrics = [] }

  -- `Update` at the time `now`
  unfoldable pub update : ℕ → String → D → Store D → Store D
  update now device entries s = record {
    metrics = insert device (record { timestamp = now; entries = entries }) s.metrics;
  }

  unfoldable pub get : String → Store D → Option (DeviceMetrics D)
  get device s = lookup device s.metrics

  -- the loop of `GetAll`, into a new map
  copy : Map (DeviceMetrics D) → Map (DeviceMetrics D) → Map (DeviceMetrics D)
  copy [] result = result
  copy ((k, v) ∷ m) result = copy m (insert k v result)

  unfoldable pub get_all : Store D → Map (DeviceMetrics D)
  unfolding copy
  get_all s = copy s.metrics []
