-- ===== src/Config/Defaults.antt =====
-- What `setDefaults` establishes.
use gcisco_exporter.Base.{
  ◌≡◌, ◌≢◌, refl, String, false, List, [], ◌∷◌, map, All, inl, inr, Bool-cases, ◌==◌, eq_iff, arith,
}
use gcisco_exporter.Int.{ℤ, pos, is_zero}
use gcisco_exporter.Config.{
  MetricSelection, Device, Config, none_selected, default_device, default_selection, default_text,
  set_defaults, default_int, default_methods,
}

pub record IsComplete (d : Device) : Type 0 where
  pub port : is_zero d.port ≡ false
  pub device_type : d.device_type ≢ ""
  pub collection_methods : d.collection_methods ≢ []
  pub process_limit : is_zero d.process_limit ≡ false

-- A configuration in which nothing is left to be defaulted.
pub record IsUsable (cfg : Config) : Type 0 where
  pub listen_addr : cfg.listen_addr ≢ ""
  pub collection_interval : cfg.collection_interval ≢ ""
  pub workers : is_zero cfg.workers ≡ false
  pub timeout : cfg.timeout ≢ ""
  pub cache_ttl : cfg.cache_ttl ≢ ""
  pub capture_path : cfg.debug_capture.path ≢ ""
  pub devices : All IsComplete cfg.devices
  pub selection : none_selected cfg.metric_selection ≡ false

default_text_ne : (d s : String) → (d == "") ≡ false → default_text d s ≢ ""
unfolding default_text
default_text_ne d s h = ground (arith, eq_iff s "", eq_iff d "")

default_text_id : (d s : String) → s ≢ "" → default_text d s ≡ s
unfolding default_text
default_text_id d s h = ground (arith, eq_iff s "")

default_methods-ne-nil : (ms : List String) → default_methods ms ≢ []
unfolding default_methods
default_methods-ne-nil [] = ground arith
default_methods-ne-nil (m ∷ ms) = ground arith

default_methods_id : (ms : List String) → ms ≢ [] → default_methods ms ≡ ms
unfolding default_methods
default_methods_id [] h = absurd (h refl)
default_methods_id (m ∷ ms) h = refl

default_int-ne-zero : (d n : ℤ) → is_zero d ≡ false → is_zero (default_int d n) ≡ false
unfolding default_int
default_int-ne-zero d n h = ground arith

default_int_id : (d n : ℤ) → is_zero n ≡ false → default_int d n ≡ n
unfolding default_int
default_int_id d n h = rw h

default_device-IsComplete : (d : Device) → IsComplete (default_device d)
unfolding default_device
default_device-IsComplete d = record {
  port = default_int-ne-zero (pos 22) d.port refl;
  device_type = default_text_ne "auto" d.device_type refl;
  collection_methods = default_methods-ne-nil d.collection_methods;
  process_limit = default_int-ne-zero (pos 10) d.process_limit refl;
}

default_device_id : (d : Device) → IsComplete d → default_device d ≡ d
unfolding default_device
default_device_id d c = cc (
  default_int_id (pos 22) d.port c.port,
  default_text_id "auto" d.device_type c.device_type,
  default_methods_id d.collection_methods c.collection_methods,
  default_int_id (pos 10) d.process_limit c.process_limit,
)

default_devices-IsComplete : (ds : List Device) → All IsComplete (map default_device ds)
default_devices-IsComplete [] = tt
default_devices-IsComplete (d ∷ ds) = (default_device-IsComplete d, default_devices-IsComplete ds)

default_devices_id : (ds : List Device) → All IsComplete ds → map default_device ds ≡ ds
default_devices_id [] h = refl
default_devices_id (d ∷ ds) h = cc (default_device_id d h.0, default_devices_id ds h.1)

default_selection_some : (ms : MetricSelection) → none_selected (default_selection ms) ≡ false
unfolding default_selection
default_selection_some ms = elim (Bool-cases (none_selected ms)) [ inl e ↦ rw e | inr e ↦ rw e e ]

default_selection_id : (ms : MetricSelection) → none_selected ms ≡ false → default_selection ms ≡ ms
unfolding default_selection
default_selection_id ms h = rw h

-- After `setDefaults` nothing is left empty, whatever the file holds: every device has a port, a
-- type, a method and a process limit, and at least one category is selected: a file in which all seven
-- categories are false selects them all.
pub set_defaults-IsUsable : (cfg : Config) → IsUsable (set_defaults cfg)
unfolding set_defaults
set_defaults-IsUsable cfg = record {
  listen_addr = default_text_ne ":9427" cfg.listen_addr refl;
  collection_interval = default_text_ne "60s" cfg.collection_interval refl;
  workers = default_int-ne-zero (pos 50) cfg.workers refl;
  timeout = default_text_ne "60s" cfg.timeout refl;
  cache_ttl = default_text_ne "120s" cfg.cache_ttl refl;
  capture_path = default_text_ne "./captures" cfg.debug_capture.path refl;
  devices = default_devices-IsComplete cfg.devices;
  selection = default_selection_some cfg.metric_selection;
}

-- What the file says is kept: a usable configuration is not changed.
pub set_defaults_id : (cfg : Config) → IsUsable cfg → set_defaults cfg ≡ cfg
unfolding set_defaults
set_defaults_id cfg u = cc (
  default_text_id ":9427" cfg.listen_addr u.listen_addr,
  default_text_id "60s" cfg.collection_interval u.collection_interval,
  default_int_id (pos 50) cfg.workers u.workers,
  default_text_id "60s" cfg.timeout u.timeout,
  default_text_id "120s" cfg.cache_ttl u.cache_ttl,
  default_text_id "./captures" cfg.debug_capture.path u.capture_path,
  default_devices_id cfg.devices u.devices,
  default_selection_id cfg.metric_selection u.selection,
)
