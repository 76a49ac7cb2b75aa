-- ===== src/Tests/Cycles.antt =====
-- One cycle over the one device, and the loop of `Start`.
use gcisco_exporter.Base.{
  ℕ, ◌≢◌, ◌+◌, ◌≤◌, ◌≡◌, refl, true, Option, none, some, [], ◌∷◌, ◌++◌, insert,
}
use gcisco_exporter.Cache.{update}
use gcisco_exporter.Metrics.Setters.Device.{
  set_collection_duration, set_collection_success, set_last_collection, set_device_up,
  set_collection_method,
}
use gcisco_exporter.Metrics.{are_accepted, accepts}
use gcisco_exporter.Scheduler.Cycle.{
  run_collection, run_jobs, job, report_job, note_success, is_nil, counted, success_count,
}
use gcisco_exporter.Scheduler.Cycle.Reach.{Within, run_collection-Within}
use gcisco_exporter.Scheduler.Cycle.Counts.{run_collection-counts}
use gcisco_exporter.Float.{whole}
use gcisco_exporter.Int.{pos}
use gcisco_exporter.Error.{returns, panics, Error}
use gcisco_exporter.Config.{timeout_duration}
use gcisco_exporter.Scheduler.World.{
  ◌>>◌, World, Env, ◌>>=◌, pure, observe, emit_all, unless_failed, when, remember,
}
use gcisco_exporter.Scheduler.Collect.Ssh.{collect_ssh, collect_platform}
use gcisco_exporter.Scheduler.Collect.Shell.{run}
use gcisco_exporter.Scheduler.Collect.Ios.{collect_ssh_ios, ios_hardware, or_stop, continue}
use gcisco_exporter.Scheduler.Device.{
  attempt, find_credential, find_named, collect_device, with_credential, try_methods, proceed,
  succeed,
}
use gcisco_exporter.Text.{lower_is, lower, same_codes}
use gcisco_exporter.Scheduler.Frame.Calm.{IsCalm, BasicIsCalm}
use gcisco_exporter.Scheduler.Fallback.Returns.{Returns, collect_device-Returns}
use gcisco_exporter.Scheduler.Start.{ticked, ctx_done, interval, loop, start}
use gcisco_exporter.Scheduler.Start.Runs.{ticks_before_done, start-Within, start_lem, start_panics}
use gcisco_exporter.Tests.Counted.{whole-CountsAreAccepted}
use gcisco_exporter.Tests.Sample.{basic_provider, switch, config, network, fresh}
use gcisco_exporter.Tests.{after_collection}

-- The cycle over the one device.
abbrev after_cycle : World ℕ
after_cycle = record {
  tick = 7;
  calls =
      after_collection.calls
      ++ set_collection_duration "core1" "10.0.0.1" 5
        ∷ set_collection_success "core1" "10.0.0.1" true
        ∷ set_last_collection "core1" "10.0.0.1" 0
        ∷ [];
  store = record { metrics = ("core1", record { timestamp = 4; entries = [] }) ∷ [] };
}

one_cycle : run_collection network config fresh ≡ some (some 1, after_cycle)
unfolding run_collection run_jobs job report_job note_success is_nil counted success_count insert
    collect_device with_credential try_methods proceed succeed find_credential find_named attempt
    collect_ssh collect_platform collect_ssh_ios ios_hardware ◌>>=◌ ◌>>◌ observe unless_failed when
    run or_stop continue pure lower_is lower same_codes emit_all remember update timeout_duration
    set_device_up set_collection_method set_collection_duration set_collection_success
    set_last_collection are_accepted accepts
one_cycle = refl

run_collection-Within_example : Within config (switch ∷ []) fresh after_cycle
run_collection-Within_example =
    run_collection-Within network config fresh after_cycle (some 1) one_cycle

returned : {A : Type 0} (a : A) (e : Option Error) → returns a e ≢ panics
returned a e p = absurd cc

basic_provider-IsCalm : BasicIsCalm basic_provider
basic_provider-IsCalm = record {
  collect_system = λ t d c. returned _ _;
  collect_resources = λ t d c. returned _ _;
  collect_processes = λ t d c n. returned _ _;
  collect_interfaces = λ t d c. returned _ _;
}

network-IsCalm : IsCalm network
network-IsCalm = record {
  json = record {
    collect_system = λ t d. returned _ _;
    collect_resources = λ t d. returned _ _;
    collect_processes = λ t d n. returned _ _;
    collect_hardware = λ t d. returned _ _;
    collect_interfaces = λ t d. returned _ _;
    collect_optics = λ t d. returned _ _;
    collect_stp = λ t d. returned _ _;
    collect_mac = λ t d. returned _ _;
    collect_vlans = λ t d. returned _ _;
    collect_port_channels = λ t d. returned _ _;
    collect_l3_tables = λ t d. returned _ _;
    collect_system_info = λ t d. returned _ _;
    collect_capacity = λ t d. returned _ _;
  };
  restconf = basic_provider-IsCalm;
  netconf = basic_provider-IsCalm;
  nxos_interfaces = λ t d c out e p. absurd cc;
  counts = whole-CountsAreAccepted network;
}

collect_device-Returns_example : Returns (collect_device network config switch)
collect_device-Returns_example = collect_device-Returns network config switch network-IsCalm

run_collection-counts_example :
    (n : ℕ) × (w : World ℕ) × (run_collection network config fresh ≡ some (some n, w)) × (n ≤ 1)
run_collection-counts_example =
    run_collection-counts network config network-IsCalm (λ t. refl) fresh

one_run : start network config (ctx_done ∷ []) fresh ≡ some (1, after_cycle)
unfolding start loop interval ◌>>=◌ pure run_collection run_jobs job report_job note_success is_nil
    counted success_count insert collect_device with_credential try_methods proceed succeed
    find_credential find_named attempt collect_ssh collect_platform collect_ssh_ios ios_hardware
    ◌>>◌ observe unless_failed when run or_stop continue lower_is lower same_codes emit_all remember
    update timeout_duration set_device_up set_collection_method set_collection_duration
    set_collection_success set_last_collection are_accepted accepts
one_run = refl

start-Within_example : Within config (switch ∷ []) fresh after_cycle
start-Within_example = start-Within network config (ctx_done ∷ []) fresh after_cycle 1 one_run

start_lem_example :
    (w : World ℕ) × (start network config (ticked ∷ ctx_done ∷ ticked ∷ []) fresh
      ≡ some (ticks_before_done (ticked ∷ ctx_done ∷ ticked ∷ []) + 1, w))
unfolding interval
start_lem_example =
    start_lem network config network-IsCalm refl (ticked ∷ ctx_done ∷ ticked ∷ []) fresh

-- A network whose clock takes every duration for zero.
abbrev stopped_clock : Env ℕ
stopped_clock = record network { parse_duration = λ s. some (pos 0) }

start_panics_example : start stopped_clock config (ticked ∷ []) fresh ≡ none
unfolding interval
start_panics_example = start_panics stopped_clock config (ticked ∷ []) fresh refl
