-- ===== src/Cache/Laws.antt =====
-- The cache as a function from device names to their last result.
use gcisco_exporter.Base.{
  ℕ, ◌≡◌, refl, ◌∙◌, String, Option, none, some, [], ◌∷◌, ◌==◌, eq_iff, arith, if◌then◌else◌, Map,
  lookup, insert, lookup-insert, Map, Distinct,
}
use gcisco_exporter.Cache.{DeviceMetrics, Store, update, get, get_all, copy}

module _ {D : Type 0} where
  -- After an update the device has the new entry, with its time, and no other device is touched.
  pub get-update :
      (now : ℕ) (device other : String) (entries : D) (s : Store D)
      → get other (update now device entries s) ≡ (
          if device == other
          then some (record { timestamp = now; entries = entries })
          else get other s)
  unfolding get update
  get-update now device other entries s =
      lookup-insert device other (record { timestamp = now; entries = entries }) s.metrics

  or_else : Option (DeviceMetrics D) → Option (DeviceMetrics D) → Option (DeviceMetrics D)
  or_else none o = o
  or_else (some v) o = some v

  lookup-copy :
      (k : String) (m result : Map (DeviceMetrics D))
      → Distinct m
      → lookup k (copy m result) ≡ or_else (lookup k m) (lookup k result)
  unfolding copy lookup or_else
  lookup-copy k [] result h = refl
  lookup-copy k ((j, v) ∷ m) result h =
      lookup-copy k m (insert j v result) h.1
      ∙ ground (arith, lookup-insert j k v result, eq_iff j k, h.0)

  -- `GetAll` returns what `Get` would return for each device.
  pub lookup-get_all :
      (device : String) (s : Store D)
      → Distinct s.metrics
      → lookup device (get_all s) ≡ get device s
  unfolding get_all get lookup or_else
  lookup-get_all device s h = ground (arith, lookup-copy device s.metrics [] h)
