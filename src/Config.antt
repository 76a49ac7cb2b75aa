-- ===== src/Config.antt =====
-- internal/config/config.go: the configuration file and its defaults. The YAML reader is a parameter.
pub mod Defaults
use gcisco_exporter.Base.{
  String, Bool, true, false, not, ◌&&◌, Option, none, some, List, [], ◌∷◌, map, ◌==◌, ◌⊎◌, inl, inr,
  if◌then◌else◌,
}
use gcisco_exporter.Error.{Error, wrapped}
use gcisco_exporter.Int.{ℤ, pos, is_zero}

pub record MetricSelection : Type 0 where
  pub hardware_health : Bool
  pub interfaces : Bool
  pub layer2_stability : Bool
  pub etherchannel : Bool
  pub layer3_tables : Bool
  pub system_maintenance : Bool
  pub capacity_trends : Bool

pub record Device : Type 0 where
  pub name : String
  pub host : String
  pub port : ℤ
  pub device_type : String
  pub credential_name : String
  pub collection_methods : List String
  pub process_limit : ℤ

pub record Credential : Type 0 where
  pub name : String
  pub username : String
  pub password : String
  pub key_file : String

pub record DebugCapture : Type 0 where
  pub enabled : Bool
  pub path : String

pub record Config : Type 0 where
  pub listen_addr : String
  pub collection_interval : String
  pub workers : ℤ
  pub timeout : String
  pub cache_ttl : String
  pub devices : List Device
  pub credentials : List Credential
  pub debug_capture : DebugCapture
  pub debug : Bool
  pub legacy_ciphers : Bool
  pub metric_selection : MetricSelection

-- `if x == "" { x = d }`, and the same for numbers and for the list of methods
unfoldable pub default_text : String → String → String
default_text d s = if s == "" then d else s

unfoldable pub default_int : ℤ → ℤ → ℤ
default_int d n = if is_zero n then d else n

unfoldable pub default_methods : List String → List String
default_methods [] = "json" ∷ "restconf" ∷ "netconf" ∷ "ssh" ∷ []
default_methods (m ∷ ms) = m ∷ ms

-- The device after one round of the loop in `setDefaults`.
unfoldable pub default_device : Device → Device
default_device d = record d {
  port = default_int (pos 22) d.port;
  device_type = default_text "auto" d.device_type;
  collection_methods = default_methods d.collection_methods;
  process_limit = default_int (pos 10) d.process_limit;
}

abbrev pub all_selected : MetricSelection
all_selected = record {
  hardware_health = true;
  interfaces = true;
  layer2_stability = true;
  etherchannel = true;
  layer3_tables = true;
  system_maintenance = true;
  capacity_trends = true;
}

-- No category is selected.
abbrev pub none_selected : MetricSelection → Bool
none_selected ms =
    not ms.hardware_health
    && not ms.interfaces
    && not ms.layer2_stability
    && not ms.etherchannel
    && not ms.layer3_tables
    && not ms.system_maintenance
    && not ms.capacity_trends

unfoldable pub default_selection : MetricSelection → MetricSelection
default_selection ms = if none_selected ms then all_selected else ms

unfoldable pub set_defaults : Config → Config
set_defaults cfg = record cfg {
  listen_addr = default_text ":9427" cfg.listen_addr;
  collection_interval = default_text "60s" cfg.collection_interval;
  workers = default_int (pos 50) cfg.workers;
  timeout = default_text "60s" cfg.timeout;
  cache_ttl = default_text "120s" cfg.cache_ttl;
  debug_capture = record {
    enabled = cfg.debug_capture.enabled;
    path = default_text "./captures" cfg.debug_capture.path;
  };
  devices = map default_device cfg.devices;
  metric_selection = default_selection cfg.metric_selection;
}

-- `Load`: `file` is what `os.ReadFile` gives, `parse` is `yaml.Unmarshal`.
unfoldable pub load : {Bytes : Type 0} → (Bytes → Error ⊎ Config) → Error ⊎ Bytes → Error ⊎ Config
unfolding set_defaults
load parse (inl e) = inl (wrapped "reading config file" e)
load parse (inr text) = elim (parse text) [
  | inl e ↦ inl (wrapped "parsing config" e)
  | inr cfg ↦ inr (set_defaults cfg)
]

-- `TimeoutDuration` in nanoseconds; `duration` is `time.ParseDuration`.
unfoldable pub timeout_duration : (String → Option ℤ) → Config → ℤ
timeout_duration duration cfg = elim (duration cfg.timeout) [
  | none ↦ pos 30_000_000_000
  | some d ↦ d
]
