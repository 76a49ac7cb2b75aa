-- ===== src/Tests/Sample.antt =====
-- A configuration with one device, a network on which only the connection of SSH is made, and the state
-- of the program before its first cycle.
use gcisco_exporter.Base.{ℕ, true, false, none, some, [], ◌∷◌, inl}
use gcisco_exporter.Int.{pos}
use gcisco_exporter.Error.{message, Answer, returns}
use gcisco_exporter.Config.{MetricSelection, Device, Credential, Config}
use gcisco_exporter.Provider.Json.{JsonProvider}
use gcisco_exporter.Provider.Basic.{BasicProvider}
use gcisco_exporter.Provider.Cli.{NxosParsers, IosxeParsers, IosParsers}
use gcisco_exporter.Scheduler.World.{World, Env}

-- A provider that answers every question with an error.
abbrev pub refused : {A : Type 0} → A → Answer A
refused a = returns a (some (message "refused"))

abbrev pub hardware_only : MetricSelection
hardware_only = record {
  hardware_health = true;
  interfaces = false;
  layer2_stability = false;
  etherchannel = false;
  layer3_tables = false;
  system_maintenance = false;
  capacity_trends = false;
}

abbrev pub admin : Credential
admin = record { name = "admin"; username = "u"; password = "p"; key_file = "" }

abbrev pub switch : Device
switch = record {
  name = "core1";
  host = "10.0.0.1";
  port = pos 22;
  device_type = "IOS";
  credential_name = "admin";
  collection_methods = "telnet" ∷ "ssh" ∷ [];
  process_limit = pos 10;
}

abbrev pub config : Config
config = record {
  listen_addr = ":9427";
  collection_interval = "60s";
  workers = pos 2;
  timeout = "60s";
  cache_ttl = "120s";
  devices = switch ∷ [];
  credentials = admin ∷ [];
  debug_capture = record { enabled = false; path = "./captures" };
  debug = false;
  legacy_ciphers = false;
  metric_selection = hardware_only;
}

abbrev pub json_provider : JsonProvider ℕ
json_provider = record {
  collect_system =
      λ _ _. refused (record { hostname = ""; version = ""; model = ""; serial = ""; uptime = 0 });
  collect_resources = λ _ _. refused (record {
    cpu_usage = 0;
    cpu_5sec = 0;
    cpu_1min = 0;
    cpu_5min = 0;
    mem_total = 0;
    mem_used = 0;
    mem_free = 0;
  });
  collect_processes = λ _ _ _. refused [];
  collect_hardware = λ _ _. refused (record {
    temperature = [];
    fan_status = [];
    power_supply = [];
    power_redundant = false;
    module_status = [];
    stack_member_status = [];
  });
  collect_interfaces = λ _ _. refused [];
  collect_optics = λ _ _. refused [];
  collect_stp = λ _ _. refused (record {
    root_changes = [];
    topo_changes = [];
    port_state_changes = [];
    blocked_ports = [];
    bpdu_guard_events = [];
  });
  collect_mac = λ _ _. refused (record { table_utilization = 0; table_count = 0; moves = [] });
  collect_vlans = λ _ _. refused (record { count = 0; active = 0 });
  collect_port_channels = λ _ _.
      refused (record { status = []; member_status = []; suspended_members = []; members = [] });
  collect_l3_tables = λ _ _. refused (record {
    arp_utilization = 0;
    arp_count = 0;
    routing_utilization = 0;
    fib_utilization = 0;
    adjacency_utilization = 0;
  });
  collect_system_info =
      λ _ _. refused (record { ntp_synced = false; uptime = 0; reload_events = 0; flash_util = 0 });
  collect_capacity = λ _ _. refused (record {
    port_utilization_ratio = 0;
    transceiver_count = 0;
    buffer_utilization = [];
    queue_utilization = [];
  });
}

abbrev pub basic_provider : BasicProvider ℕ
basic_provider = record {
  collect_system = λ _ _ _.
      refused (record { hostname = ""; version = ""; model = ""; serial = ""; uptime = 0 });
  collect_resources =
      λ _ _ _. refused (record { cpu_usage = 0; mem_total = 0; mem_used = 0; mem_free = 0 });
  collect_processes = λ _ _ _ _. refused [];
  collect_interfaces = λ _ _ _. refused [];
}

abbrev pub nxos_parsers : NxosParsers ℕ
nxos_parsers = record {
  parse_version = λ _. record { hostname = ""; version = ""; model = ""; uptime = 0; serial = "" };
  parse_inventory = λ _. record { chassis = ""; serial = "" };
  parse_cpu = λ _. record { five_sec = 0; one_min = 0; five_min = 0 };
  parse_environment =
      λ _. record { fan_status = []; power_supply = []; power_redund = false; temperature = [] };
  parse_interfaces = λ _. some [];
  parse_stp = λ _. record { blocked_ports = []; topo_changes = [] };
  parse_vlans = λ _. record { table_count = 0; vlan_count = 0; active_vlan = 0 };
  parse_arp = λ _. record { arp_count = 0; route_count = 0; fib_count = 0; adj_count = 0 };
  parse_route_summary =
      λ _. record { arp_count = 0; route_count = 0; fib_count = 0; adj_count = 0 };
  parse_ntp = λ _. false;
  parse_flash = λ _. 0;
}

abbrev pub iosxe_parsers : IosxeParsers ℕ
iosxe_parsers = record {
  parse_version = λ _. record { hostname = ""; version = ""; model = ""; uptime = 0; serial = "" };
  parse_inventory = λ _. record { model = ""; serial = "" };
  parse_cpu = λ _. record { five_sec = 0; one_min = 0; five_min = 0 };
  parse_environment = λ _. record { fan_status = []; power_supply = []; temperature = [] };
  parse_interfaces = λ _. [];
  parse_stp = λ _. record { blocked_ports = []; topo_changes = [] };
  parse_vlans = λ _. record { table_count = 0; vlan_count = 0; active_vlan = 0 };
  parse_mac_count = λ _. 0;
  parse_arp = λ _. record { arp_count = 0; route_count = 0; fib_count = 0 };
  parse_route_summary = λ _. record { arp_count = 0; route_count = 0; fib_count = 0 };
  parse_ntp = λ _. false;
  parse_flash = λ _. 0;
}

abbrev pub ios_parsers : IosParsers ℕ
ios_parsers = record {
  parse_version = λ _. record { hostname = ""; version = ""; model = ""; uptime = 0; serial = "" };
  parse_cpu = λ _. record { five_sec = 0; one_min = 0; five_min = 0 };
  parse_interfaces = λ _. [];
  parse_stp = λ _. record { blocked_ports = []; topo_changes = [] };
  parse_vlans = λ _. record { vlan_count = 0; active_vlan = 0 };
  parse_mac_count = λ _. 0;
  parse_arp_table = λ _. 0;
  parse_routing_table = λ _. 0;
  parse_ntp_status = λ _. false;
  parse_flash_utilization = λ _. 0;
}

-- The connection is made, and every command fails.
abbrev pub network : Env ℕ
network = record {
  dial = λ t d c limit legacy. none;
  execute = λ t d c command. inl (message "closed");
  netconf_connect = λ t d c. some (message "refused");
  json = json_provider;
  restconf = basic_provider;
  netconf = basic_provider;
  nxos = nxos_parsers;
  iosxe = iosxe_parsers;
  ios = ios_parsers;
  now = λ t. t;
  seconds_between = λ a b. b;
  is_cancelled = λ t. false;
  parse_duration = λ s. some (pos 60_000_000_000);
}

abbrev pub fresh : World ℕ
fresh = record { tick = 0; calls = []; store = record { metrics = [] } }
