-- ===== src/Scheduler/World.antt =====
-- What the scheduler works on: the cache, the calls that the collector has made so far, and the
-- environment, which the program cannot foresee. Each question to the environment (a connection, a
-- command, the clock) is asked at the next instant, so that the answers may differ from one time to
-- the next.
use gcisco_exporter.Base.{
  ℕ, ◌+◌, String, Bool, true, false, Option, none, some, List, [], ◌++◌, ◌⊎◌, inl, inr, Map,
  if◌then◌else◌,
}
use gcisco_exporter.Int.{ℤ}
use gcisco_exporter.Error.{Error, wrapped, Answer, panics, returns}
use gcisco_exporter.Config.{Device, Credential}
use gcisco_exporter.Metrics.{Call, are_accepted}
use gcisco_exporter.Float.{Float64}
use gcisco_exporter.Cache.{Store, update}
use gcisco_exporter.Provider.Json.{
  SystemData, InterfaceData, OpticData, ResourceData, ProcessData, StpData, MacData, VlanData,
  PortChannelData, L3TableData, HardwareData, SystemData2, CapacityData, JsonProvider,
}
use gcisco_exporter.Provider.Basic.{BasicInterface, BasicResources, BasicProvider}
use gcisco_exporter.Provider.Cli.{
  CliVersion, CliCpu, CliInterface, NxosMacData, IosxeMacData, IosVlanData, NxosParsers,
  IosxeParsers, IosParsers,
}

-- The values that a result map holds, `interface{}` in Go.
pub data Datum (F : Type 0) : Type 0 where
  system : SystemData F → Datum F
  resources : ResourceData F → Datum F
  processes : List (ProcessData F) → Datum F
  hardware : HardwareData F → Datum F
  interfaces : List (InterfaceData F) → Datum F
  optics : Map (OpticData F) → Datum F
  stp : StpData F → Datum F
  mac : MacData F → Datum F
  vlans : VlanData → Datum F
  port_channels : PortChannelData F → Datum F
  l3_tables : L3TableData F → Datum F
  sys_info : SystemData2 F → Datum F
  capacity : CapacityData F → Datum F
  basic_resources : BasicResources F → Datum F
  basic_interfaces : List (BasicInterface F) → Datum F
  cli_version : CliVersion F → Datum F
  cli_cpu : CliCpu F → Datum F
  cli_interfaces : List (CliInterface F) → Datum F
  nxos_vlans : NxosMacData F → Datum F
  iosxe_vlans : IosxeMacData F → Datum F
  ios_vlans : IosVlanData → Datum F
  text : String → Datum F

abbrev pub Results : Type 0 → Type 0
Results F = Map (Datum F)

pub record World (F : Type 0) : Type 0 where
  pub tick : ℕ
  pub calls : List (Call F)
  pub store : Store (Results F)

-- The network, the clock and the standard library; the providers and parsers of the program.
pub record Env (F : Type 0) : Type 0 where
  -- `ssh.NewClient`, with the time limit and `legacy_ciphers`
  pub dial : ℕ → Device → Credential → ℤ → Bool → Option Error
  -- `client.Execute`
  pub execute : ℕ → Device → Credential → String → Error ⊎ String
  -- `provider.Connect` of NETCONF
  pub netconf_connect : ℕ → Device → Credential → Option Error
  pub json : JsonProvider F
  pub restconf : BasicProvider F
  pub netconf : BasicProvider F
  pub nxos : NxosParsers F
  pub iosxe : IosxeParsers F
  pub ios : IosParsers F
  -- `time.Now()` in nanoseconds, and the seconds from one instant to another
  pub now : ℕ → ℕ
  pub seconds_between : ℕ → ℕ → F
  -- `ctx.Done()`
  pub is_cancelled : ℕ → Bool
  -- `time.ParseDuration`, in nanoseconds
  pub parse_duration : String → Option ℤ

-- `none` is a run-time panic, which ends the program.
abbrev pub M : Type 0 → Type 0 → Type 0
M F A = World F → Option (A × World F)

module _ {F : Type 0} where
  infixl 5 ◌>>=◌ ◌>>◌
  unfoldable pub ◌>>=◌ : {A B : Type 0} → M F A → (A → M F B) → M F B
  ◌>>=◌ m f w = elim (m w) [ none ↦ none | some (a, w') ↦ f a w' ]

  unfoldable pub ◌>>◌ : {A : Type 0} → M F (Unit {0}) → M F A → M F A
  unfolding ◌>>=◌
  m >> k = m >>= λ _. k

  unfoldable pub pure : {A : Type 0} → A → M F A
  pure a w = some (a, w)

  -- Asks the environment.
  unfoldable pub observe : {A : Type 0} → (ℕ → A) → M F A
  observe f w = some (f w.tick, record w { tick = w.tick + 1 })

  unfoldable pub from_answer :
      {A : Type 0} → Answer A → World F → Option ((A × Option Error) × World F)
  from_answer panics w = none
  from_answer (returns a e) w = some ((a, e), w)

  -- Calls a provider.
  unfoldable pub consult : {A : Type 0} → (ℕ → Answer A) → M F (A × Option Error)
  unfolding from_answer
  consult f w = from_answer (f w.tick) (record w { tick = w.tick + 1 })

  -- A value that is computed, unless that panics.
  unfoldable pub checked : {A : Type 0} → Option A → M F A
  checked none w = none
  checked (some a) w = some (a, w)

  -- `store.Update` at the present time
  unfoldable pub remember : Env F → String → Results F → M F (Unit {0})
  remember env device result w =
      some
        (tt, record w { tick = w.tick + 1; store = update (env.now w.tick) device result w.store })

  -- `if selected { … }` on the results so far
  unfoldable pub when : {A : Type 0} → Bool → A → M F A → M F A
  when true a m = m
  when false a m = pure a

  -- `if err != nil { return nil, fmt.Errorf("…: %w", err) }`
  unfoldable pub unless_failed :
      {A : Type 0} → Option Error → String → M F (Error ⊎ A) → M F (Error ⊎ A)
  unfolding pure
  unless_failed none context m = m
  unless_failed (some e) context m = pure (inl (wrapped context e))

  unfoldable pub on_ok : {A B : Type 0} → Error ⊎ A → (A → M F (Error ⊎ B)) → M F (Error ⊎ B)
  unfolding pure
  on_ok (inl e) k = pure (inl e)
  on_ok (inr a) k = k a

  -- the `else` branch of `if err != nil { log } else { … }`
  unfoldable pub on_success : Option Error → List (Call F) → List (Call F)
  on_success none cs = cs
  on_success (some e) cs = []

module _ {F : Type 0} ⦃fl : Float64 F⦄ where
  -- The calls of the setters, in their order; `Add` panics on a number below zero. `WithLabelValues` panics on
  -- values that do not fit the vector; that those of each call do is `arity` of Scheduler/Ownership.
  unfoldable pub emit_all : List (Call F) → M F (Unit {0})
  unfolding are_accepted
  emit_all cs w = if are_accepted cs then some (tt, record w { calls = w.calls ++ cs }) else none
