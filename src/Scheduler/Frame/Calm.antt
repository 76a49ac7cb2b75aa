-- ===== src/Scheduler/Frame/Calm.antt =====
-- When a provider or a parser does not panic, and neither does the report of what it returns: `Add` panics
-- on a number below zero.
use gcisco_exporter.Base.{ℕ, ◌≡◌, ◌≢◌, String, true, Option, none, some, subst, List, flat_map, inr}
use gcisco_exporter.Float.{Float64}
use gcisco_exporter.Metrics.{Call, are_accepted}
use gcisco_exporter.Int.{ℤ}
use gcisco_exporter.Error.{Error, Answer, panics, returns}
use gcisco_exporter.Config.{Device, Credential}
use gcisco_exporter.Provider.Json.{JsonProvider}
use gcisco_exporter.Provider.Basic.{BasicProvider}
use gcisco_exporter.Provider.Cli.{CliInterface}
use gcisco_exporter.Scheduler.Collect.Calls.{
  interface_calls, basic_interface_calls, cli_interface_calls,
}
use gcisco_exporter.Scheduler.Collect.Json.Tables.{stp_calls, mac_calls}
use gcisco_exporter.Scheduler.World.{Env}

module _ {F : Type 0} ⦃fl : Float64 F⦄ where
  -- the answer, if there is one, has no number below zero for a counter
  abbrev pub Accepted : {A : Type 0} → (A → List (Call F)) → Answer A → Type 0
  Accepted calls panics = Unit
  Accepted calls (returns a e) = are_accepted (calls a) ≡ true

  pub Accepted-returns :
      {A : Type 0} (calls : A → List (Call F)) {r : Answer A} {a : A} {e : Option Error}
      → r ≡ returns a e
      → Accepted calls r
      → are_accepted (calls a) ≡ true
  Accepted-returns calls same h = subst (Accepted calls) same h

pub record JsonIsCalm {F : Type 0} (p : JsonProvider F) : Type 0 where
  pub collect_system : (t : ℕ) (d : Device) → p.collect_system t d ≢ panics
  pub collect_resources : (t : ℕ) (d : Device) → p.collect_resources t d ≢ panics
  pub collect_processes : (t : ℕ) (d : Device) (n : ℤ) → p.collect_processes t d n ≢ panics
  pub collect_hardware : (t : ℕ) (d : Device) → p.collect_hardware t d ≢ panics
  pub collect_interfaces : (t : ℕ) (d : Device) → p.collect_interfaces t d ≢ panics
  pub collect_optics : (t : ℕ) (d : Device) → p.collect_optics t d ≢ panics
  pub collect_stp : (t : ℕ) (d : Device) → p.collect_stp t d ≢ panics
  pub collect_mac : (t : ℕ) (d : Device) → p.collect_mac t d ≢ panics
  pub collect_vlans : (t : ℕ) (d : Device) → p.collect_vlans t d ≢ panics
  pub collect_port_channels : (t : ℕ) (d : Device) → p.collect_port_channels t d ≢ panics
  pub collect_l3_tables : (t : ℕ) (d : Device) → p.collect_l3_tables t d ≢ panics
  pub collect_system_info : (t : ℕ) (d : Device) → p.collect_system_info t d ≢ panics
  pub collect_capacity : (t : ℕ) (d : Device) → p.collect_capacity t d ≢ panics

pub record BasicIsCalm {F : Type 0} (p : BasicProvider F) : Type 0 where
  pub collect_system : (t : ℕ) (d : Device) (c : Credential) → p.collect_system t d c ≢ panics
  pub collect_resources : (t : ℕ) (d : Device) (c : Credential) → p.collect_resources t d c ≢ panics
  pub collect_processes :
      (t : ℕ) (d : Device) (c : Credential) (n : ℤ) → p.collect_processes t d c n ≢ panics
  pub collect_interfaces :
      (t : ℕ) (d : Device) (c : Credential) → p.collect_interfaces t d c ≢ panics

-- Of what the environment `env` answers, no counter is given a number below zero.
pub record CountsAreAccepted {F : Type 0} ⦃fl : Float64 F⦄ (env : Env F) : Type 0 where
  pub json_accepted :
      (t : ℕ) (d : Device)
      → Accepted (flat_map (interface_calls d)) (env.json.collect_interfaces t d)
  pub stp_accepted : (t : ℕ) (d : Device) → Accepted (stp_calls d) (env.json.collect_stp t d)
  pub mac_accepted : (t : ℕ) (d : Device) → Accepted (mac_calls d) (env.json.collect_mac t d)
  pub restconf_accepted :
      (t : ℕ) (d : Device) (c : Credential)
      → Accepted (flat_map (basic_interface_calls d)) (env.restconf.collect_interfaces t d c)
  pub netconf_accepted :
      (t : ℕ) (d : Device) (c : Credential)
      → Accepted (flat_map (basic_interface_calls d)) (env.netconf.collect_interfaces t d c)
  pub nxos_accepted :
      (t : ℕ) (d : Device) (c : Credential) (out : String) (ifaces : List (CliInterface F))
      → env.execute t d c "show interface" ≡ inr out
      → env.nxos.parse_interfaces out ≡ some ifaces
      → are_accepted (flat_map (cli_interface_calls d) ifaces) ≡ true
  pub iosxe_accepted :
      (t : ℕ) (d : Device) (c : Credential) (out : String)
      → env.execute t d c "show interface" ≡ inr out
      → are_accepted (flat_map (cli_interface_calls d) (env.iosxe.parse_interfaces out)) ≡ true
  pub ios_accepted :
      (t : ℕ) (d : Device) (c : Credential) (out : String)
      → env.execute t d c "show interface" ≡ inr out
      → are_accepted (flat_map (cli_interface_calls d) (env.ios.parse_interfaces out)) ≡ true

-- No provider panics, and no parser does at an output of the network; no counter is given a number below
-- zero.
pub record IsCalm {F : Type 0} ⦃fl : Float64 F⦄ (env : Env F) : Type 0 where
  pub json : JsonIsCalm env.json
  pub restconf : BasicIsCalm env.restconf
  pub netconf : BasicIsCalm env.netconf
  pub nxos_interfaces :
      (t : ℕ) (d : Device) (c : Credential) (out : String)
      → env.execute t d c "show interface" ≡ inr out
      → env.nxos.parse_interfaces out ≢ none
  pub counts : CountsAreAccepted env
