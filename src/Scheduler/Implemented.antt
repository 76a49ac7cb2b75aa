-- ===== src/Scheduler/Implemented.antt =====
-- The scheduler over the program's own providers and parsers: internal/provider/json/json.go,
-- internal/provider/restconf/restconf.go, internal/provider/netconf/netconf.go and
-- internal/provider/ssh/parser_*.go in the place of the parameters of `Env`.
use gcisco_exporter.Base.{ℕ, ◌≡◌, false, String, ◌⊎◌, inr, arith}
use gcisco_exporter.Error.{Error}
use gcisco_exporter.Strings.{Chars, chars}
use gcisco_exporter.Float.{Float64}
use gcisco_exporter.Config.{Config, Device, Credential}
use gcisco_exporter.Provider.Json.Value.{Fields}
use gcisco_exporter.Provider.Json.Shaped.{IsShaped}
use gcisco_exporter.Provider.Json.Calm.{
  collect_system-calm, collect_resources-calm, collect_processes-calm, collect_hardware-calm,
  collect_interfaces-calm, collect_optics-calm, collect_stp-calm, collect_mac-calm,
  collect_vlans-calm, collect_port_channels-calm, collect_l3_tables-calm, collect_system_info-calm,
  collect_capacity-calm,
}
use gcisco_exporter.Provider.Json.Methods.{run_json, json_provider}
use gcisco_exporter.Provider.Restconf.{restconf_provider}
use gcisco_exporter.Provider.Netconf.{netconf_provider}
use gcisco_exporter.Provider.Netconf.Session.{Exchange}
use gcisco_exporter.Provider.Netconf.Methods.{Xml}
use gcisco_exporter.Provider.Netconf.Replies.{
  netconf_system-calm, netconf_interfaces-calm, netconf_resources-calm, netconf_processes-calm,
}
use gcisco_exporter.Provider.Restconf.Request.{Http, do_request}
use gcisco_exporter.Provider.Restconf.Calm
use gcisco_exporter.Provider.Cli.Lines.{blocks}
use gcisco_exporter.Provider.Cli.Nxos.{nxos_parsers}
use gcisco_exporter.Provider.Cli.Nxos.Patterns.{ethernet_header}
use gcisco_exporter.Provider.Cli.Nxos.Panics.{any_block_breaks, parse_nxos_interfaces-panics}
use gcisco_exporter.Provider.Cli.Iosxe.{iosxe_parsers}
use gcisco_exporter.Provider.Cli.Ios.{ios_parsers}
use gcisco_exporter.Scheduler.World.{Env}
use gcisco_exporter.Scheduler.Device.{collect_device}
use gcisco_exporter.Scheduler.Frame.Calm.{JsonIsCalm, BasicIsCalm, CountsAreAccepted, IsCalm}
use gcisco_exporter.Scheduler.Fallback.Returns.{Returns, collect_device-Returns}

module _ {F : Type 0} ⦃fl : Float64 F⦄ (env : Env F) (decode : Chars → String ⊎ Fields F)
    (credential : Device → Credential) (http : Http F) (xml : Xml)
    (session : ℕ → Device → Credential → Chars → Exchange) where
  -- the JSON provider over the shell session of the device
  unfoldable pub json_run : ℕ → Device → String → Error ⊎ Fields F
  json_run = run_json decode (λ t d cmd. env.execute t d (credential d) cmd)

  -- `env` with the program's providers and parsers in place of its own
  unfoldable pub implemented : Env F
  implemented = record env {
    json = json_provider decode (λ t d cmd. env.execute t d (credential d) cmd);
    restconf = restconf_provider http;
    netconf = netconf_provider xml session;
    nxos = nxos_parsers;
    iosxe = iosxe_parsers;
    ios = ios_parsers;
  }

  -- what the program asserts of the answers of the network without a test
  pub record IsTame : Type 0 where
    -- the tables in JSON answers are objects
    pub shaped :
        (t : ℕ) (d : Device) (cmd : String) (fields : Fields F)
        → json_run t d cmd ≡ inr fields
        → IsShaped fields
    -- no line of an NX-OS interface has a match with too few groups
    pub unbroken :
        (t : ℕ) (d : Device) (c : Credential) (out : String)
        → env.execute t d c "show interface" ≡ inr out
        → any_block_breaks (blocks ethernet_header (chars out)) ≡ false
    -- no counter is given a number below zero
    pub counts : CountsAreAccepted implemented

  json_provider-JsonIsCalm : IsTame → JsonIsCalm implemented.json
  unfolding implemented json_provider json_run
  json_provider-JsonIsCalm h = record {
    collect_system = λ t d. collect_system-calm (json_run t d) (h.shaped t d);
    collect_resources = λ t d. collect_resources-calm (json_run t d) (h.shaped t d);
    collect_processes = λ t d n. collect_processes-calm (json_run t d) (h.shaped t d) n;
    collect_hardware = λ t d. collect_hardware-calm (json_run t d) (h.shaped t d);
    collect_interfaces = λ t d. collect_interfaces-calm (json_run t d) (h.shaped t d);
    collect_optics = λ t d. collect_optics-calm (json_run t d) (h.shaped t d);
    collect_stp = λ t d. collect_stp-calm (json_run t d) (h.shaped t d);
    collect_mac = λ t d. collect_mac-calm (json_run t d) (h.shaped t d);
    collect_vlans = λ t d. collect_vlans-calm (json_run t d) (h.shaped t d);
    collect_port_channels = λ t d. collect_port_channels-calm (json_run t d) (h.shaped t d);
    collect_l3_tables = λ t d. collect_l3_tables-calm (json_run t d) (h.shaped t d);
    collect_system_info = λ t d. collect_system_info-calm (json_run t d) (h.shaped t d);
    collect_capacity = λ t d. collect_capacity-calm (json_run t d) (h.shaped t d);
  }

  restconf_provider-BasicIsCalm : BasicIsCalm implemented.restconf
  unfolding implemented restconf_provider
  restconf_provider-BasicIsCalm = record {
    collect_system = λ t d c. Calm.collect_system-calm http (do_request http t d c);
    collect_resources = λ t d c. Calm.collect_resources-calm http (do_request http t d c);
    collect_processes = λ t d c n. Calm.collect_processes-calm http (do_request http t d c) n;
    collect_interfaces = λ t d c. Calm.collect_interfaces-calm http (do_request http t d c);
  }

  netconf_provider-BasicIsCalm : BasicIsCalm implemented.netconf
  unfolding implemented netconf_provider
  netconf_provider-BasicIsCalm = record {
    collect_system = λ t d c. netconf_system-calm F xml (session t d c);
    collect_resources = λ t d c. netconf_resources-calm F xml (session t d c);
    collect_processes = λ t d c n. netconf_processes-calm F xml (session t d c) n;
    collect_interfaces = λ t d c. netconf_interfaces-calm F xml (session t d c);
  }

  implemented-IsCalm : IsTame → IsCalm implemented
  unfolding implemented nxos_parsers
  implemented-IsCalm h = record {
    json = json_provider-JsonIsCalm h;
    restconf = restconf_provider-BasicIsCalm;
    netconf = netconf_provider-BasicIsCalm;
    nxos_interfaces = λ t d c out replied panicked. absurd (
        ground (
          arith,
          h.unbroken t d c out replied,
          (parse_nxos_interfaces-panics {F = F} out).0 panicked,
        ));
    counts = h.counts;
  }

  -- With the program's own providers and parsers, the collection of a device ends without a panic at
  -- every instant, where the tables in the JSON answers are objects, no NX-OS interface has a line that breaks
  -- the parser, and no counter is given a number below zero.
  pub implemented-Returns :
      IsTame → (cfg : Config) (d : Device) → Returns (collect_device implemented cfg d)
  implemented-Returns h cfg d = collect_device-Returns implemented cfg d (implemented-IsCalm h)
