-- ===== src/Tests/State.antt =====
-- The configuration, the cache and the registry at small inputs.
use gcisco_exporter.Base.{
  ℕ, ◌≡◌, refl, String, false, some, [], ◌∷◌, lookup, if◌then◌else◌, ◌==◌, eq_iff, ◌≢◌, arith,
}
use gcisco_exporter.Float.{whole}
use gcisco_exporter.Int.{pos}
use gcisco_exporter.Config.{Config, set_defaults}
use gcisco_exporter.Config.Defaults.{IsUsable, set_defaults-IsUsable, set_defaults_id}
use gcisco_exporter.Cache.{Store, update, get, get_all}
use gcisco_exporter.Cache.Laws.{get-update, lookup-get_all}
use gcisco_exporter.Metrics.{iface_rx_bytes}
use gcisco_exporter.Metrics.Vecs.{of_name}
use gcisco_exporter.Metrics.Names.{name, of_name-name}
use gcisco_exporter.Base.{length, All}
use gcisco_exporter.Capture.{sanitize, sanitize_onto, is_kept}
use gcisco_exporter.Capture.Names.{IsNameByte, sanitize_lem}
use gcisco_exporter.Text.{same_codes}
use gcisco_exporter.Strings.{
  Chars, trim_space, trim_left, trim_end, is_space, split_lines, onto_first,
}
use Prim.Native.Char.{char}
use gcisco_exporter.Provider.Output.{
  clean_output, join_lines, keep_lines, is_skipped, ends_in_hash, has_hash_blank, without_returns,
}
use gcisco_exporter.Provider.Output.Stable.{NoReturn, clean_output_lem}
use gcisco_exporter.Tests.Sample.{config}

-- A configuration file that says nothing.
abbrev blank : Config
blank = record {
  listen_addr = "";
  collection_interval = "";
  workers = pos 0;
  timeout = "";
  cache_ttl = "";
  devices = [];
  credentials = [];
  debug_capture = record { enabled = false; path = "" };
  debug = false;
  legacy_ciphers = false;
  metric_selection = record {
    hardware_health = false;
    interfaces = false;
    layer2_stability = false;
    etherchannel = false;
    layer3_tables = false;
    system_maintenance = false;
    capacity_trends = false;
  };
}

set_defaults-IsUsable_example : IsUsable (set_defaults blank)
set_defaults-IsUsable_example = set_defaults-IsUsable blank

differ : (a b : String) → (a == b) ≡ false → a ≢ b
differ a b e = ground (arith, e, eq_iff a b)

config-IsUsable : IsUsable config
config-IsUsable = record {
  listen_addr = differ ":9427" "" refl;
  collection_interval = differ "60s" "" refl;
  workers = refl;
  timeout = differ "60s" "" refl;
  cache_ttl = differ "120s" "" refl;
  capture_path = differ "./captures" "" refl;
  devices = (
    record {
      port = refl;
      device_type = differ "IOS" "" refl;
      collection_methods = ground arith;
      process_limit = refl;
    },
    tt,
  );
  selection = refl;
}

set_defaults_id_example : set_defaults config ≡ config
set_defaults_id_example = set_defaults_id config config-IsUsable

abbrev one_entry : Store ℕ
one_entry = record { metrics = ("core1", record { timestamp = 5; entries = 1 }) ∷ [] }

get-update_example : get "core1" (update 9 "core1" 2 one_entry) ≡ (
    if "core1" == "core1"
    then some (record { timestamp = 9; entries = 2 })
    else get "core1" one_entry)
get-update_example = get-update 9 "core1" "core1" 2 one_entry

lookup-get_all_example : lookup "core1" (get_all one_entry) ≡ get "core1" one_entry
unfolding lookup
lookup-get_all_example = lookup-get_all "core1" one_entry (refl, tt)

of_name-name_example : of_name (name iface_rx_bytes) ≡ some iface_rx_bytes
of_name-name_example = of_name-name iface_rx_bytes

sanitize_lem_example :
    (length (sanitize (b'a' ∷ b'/' ∷ [])) ≡ 2)
    × All IsNameByte (sanitize (b'a' ∷ b'/' ∷ []))
    × (sanitize (sanitize (b'a' ∷ b'/' ∷ [])) ≡ sanitize (b'a' ∷ b'/' ∷ []))
sanitize_lem_example = sanitize_lem (b'a' ∷ b'/' ∷ [])

sanitized : sanitize (b'a' ∷ b'/' ∷ []) ≡ b'a' ∷ b'_' ∷ []
unfolding sanitize sanitize_onto is_kept
sanitized = refl

-- "id", a carriage return, a line feed, "x", a line feed and a prompt
abbrev reply : Chars
reply = "i" ∷ "d" ∷ char 13 tt ∷ char 10 tt ∷ "x" ∷ char 10 tt ∷ "r" ∷ "#" ∷ []

cleaned : clean_output reply ("i" ∷ "d" ∷ []) ≡ "x" ∷ []
unfolding clean_output join_lines keep_lines is_skipped same_codes ends_in_hash has_hash_blank
    trim_space trim_left trim_end is_space split_lines onto_first without_returns
cleaned = refl

clean_output_lem_example :
    (clean_output (clean_output reply ("i" ∷ "d" ∷ [])) ("i" ∷ "d" ∷ [])
      ≡ clean_output reply ("i" ∷ "d" ∷ []))
    × All NoReturn (clean_output reply ("i" ∷ "d" ∷ []))
clean_output_lem_example = clean_output_lem reply ("i" ∷ "d" ∷ [])
