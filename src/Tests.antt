-- ===== src/Tests.antt =====
-- Runs of the program at small inputs: one device, reached over SSH after a method that does not exist.
mod Sample
mod Parsers
mod Answers
mod Network
mod Replies
mod State
mod Pools
mod Counted
mod Registry
mod Cycles
use gcisco_exporter.Base.{
  ℕ, ◌≢◌, ◌+◌, ◌≤◌, ◌≡◌, refl, String, Bool, true, false, Option, none, some, List, [], ◌∷◌, ◌++◌,
  ◌⊎◌, inl, inr, Map, insert, if◌then◌else◌, ◌==◌, eq_iff, arith,
}
use gcisco_exporter.Cache.{update}
use gcisco_exporter.Metrics.Setters.Device.{
  set_collection_duration, set_collection_success, set_last_collection,
}
use gcisco_exporter.Scheduler.Cycle.{
  run_collection, run_jobs, job, report_job, note_success, is_nil, counted, success_count,
}
use gcisco_exporter.Scheduler.Cycle.Reach.{Within, run_collection-Within}
use gcisco_exporter.Scheduler.Cycle.Counts.{run_collection-counts}
use gcisco_exporter.Scheduler.Fallback.Credentials.{find_credential_cases}
use gcisco_exporter.Float.{whole}
use gcisco_exporter.Int.{ℤ, pos}
use gcisco_exporter.Error.{returns, panics, Error, message, unknown_method, all_methods_failed}
use gcisco_exporter.Config.{MetricSelection, Device, Credential, Config, timeout_duration}
use gcisco_exporter.Scheduler.World.{
  ◌>>◌, World, Env, Results, ◌>>=◌, pure, observe, emit_all, unless_failed, when, remember,
}
use gcisco_exporter.Scheduler.Collect.Ssh.{collect_ssh, collect_platform}
use gcisco_exporter.Scheduler.Collect.Shell.{run}
use gcisco_exporter.Scheduler.Collect.Ios.{collect_ssh_ios, ios_hardware, or_stop, continue}
use gcisco_exporter.Scheduler.Device.{
  attempt, find_credential, find_named, first_of_list, collect_device, with_credential, try_methods,
  proceed, succeed,
}
use gcisco_exporter.Scheduler.Fallback.{reported_up, reported_down}
use gcisco_exporter.Scheduler.Fallback.Contract.{
  Outcome, collect_device-first_success, collect_device-all_fail, collect_device-Outcome,
}
use gcisco_exporter.Scheduler.Fallback.Isolation.{Isolated, collect_device-Isolated}
use gcisco_exporter.Scheduler.Fallback.Sessions.{
  SessionEnd, later, collect_ssh-SessionEnd, collect_device_empty_success,
}
use gcisco_exporter.Text.{lower_is, lower, same_codes}
use gcisco_exporter.Scheduler.Frame.Calm.{IsCalm, BasicIsCalm}
use gcisco_exporter.Scheduler.Fallback.Returns.{Returns, collect_device-Returns}
use gcisco_exporter.Scheduler.Start.{ticked, ctx_done, interval, loop, start}
use gcisco_exporter.Scheduler.Start.Runs.{ticks_before_done, start-Within, start_lem, start_panics}
use Sample.{basic_provider, switch, config, admin, network, fresh}

abbrev limit : ℤ
limit = pos 60_000_000_000

telnet_fails :
    attempt network config switch admin limit "telnet" fresh
    ≡ some (inl (unknown_method "telnet"), fresh)
unfolding attempt pure
telnet_fails = refl

ssh_answers :
    attempt network config switch admin limit "ssh" fresh ≡ some (inr [], later (later fresh))
unfolding attempt collect_ssh collect_platform collect_ssh_ios ios_hardware ◌>>=◌ observe
    unless_failed when run or_stop continue pure lower_is lower same_codes
ssh_answers = refl

admin_found : find_credential "admin" config.credentials ≡ some admin
unfolding find_credential find_named
admin_found = refl

limit_60s : timeout_duration network.parse_duration config ≡ limit
unfolding timeout_duration
limit_60s = refl

collect_device-first_success_example :
    collect_device network config switch fresh
    ≡ some (none, reported_up network config switch "ssh" [] (later (later fresh)))
unfolding timeout_duration
collect_device-first_success_example =
    collect_device-first_success network config switch admin admin_found ("telnet" ∷ []) [] "ssh" []
      fresh fresh (later (later fresh)) refl (unknown_method "telnet", fresh, telnet_fails, refl)
      ssh_answers

abbrev after_collection : World ℕ
after_collection = reported_up network config switch "ssh" [] (later (later fresh))

collect_device_run : collect_device network config switch fresh ≡ some (none, after_collection)
unfolding timeout_duration
collect_device_run =
    collect_device-first_success network config switch admin admin_found ("telnet" ∷ []) [] "ssh" []
      fresh fresh (later (later fresh)) refl (unknown_method "telnet", fresh, telnet_fails, refl)
      ssh_answers

collect_device-Outcome_example : Outcome network config switch fresh none after_collection
collect_device-Outcome_example =
    collect_device-Outcome network config switch fresh after_collection none collect_device_run

collect_device-Isolated_example : Isolated config switch fresh after_collection
collect_device-Isolated_example =
    collect_device-Isolated network config switch fresh after_collection none collect_device_run

-- The same switch without SSH.
abbrev deaf : Device
deaf = record switch { collection_methods = "telnet" ∷ [] }

deaf_fails :
    attempt network config deaf admin limit "telnet" fresh
    ≡ some (inl (unknown_method "telnet"), fresh)
unfolding attempt pure
deaf_fails = refl

collect_device-all_fail_example :
    collect_device network config deaf fresh
    ≡ some (some (all_methods_failed "core1"), reported_down network config deaf fresh)
unfolding timeout_duration
collect_device-all_fail_example =
    collect_device-all_fail network config deaf admin admin_found fresh fresh
      (unknown_method "telnet", fresh, deaf_fails, refl)

dialed : collect_ssh network switch config admin limit fresh ≡ some (inr [], later (later fresh))
unfolding collect_ssh collect_platform collect_ssh_ios ios_hardware ◌>>=◌ observe unless_failed when
    run or_stop continue pure lower_is lower same_codes
dialed = refl

collect_ssh-SessionEnd_example :
    SessionEnd network switch config admin limit none fresh (inr []) (later (later fresh))
collect_ssh-SessionEnd_example =
    collect_ssh-SessionEnd network switch config admin limit fresh (later (later fresh)) (inr [])
      dialed

-- The same switch with SSH alone.
abbrev plain : Device
plain = record switch { collection_methods = "ssh" ∷ [] }

collect_device_empty_success_example :
    collect_device network config plain fresh
    ≡ some (none, reported_up network config plain "ssh" [] (later (later fresh)))
unfolding lower_is lower same_codes timeout_duration
collect_device_empty_success_example =
    collect_device_empty_success network plain config admin [] fresh (message "closed") admin_found
      refl refl refl refl refl refl

abbrev guest : Credential
guest = record { name = "guest"; username = ""; password = ""; key_file = "" }

find_credential_cases_example :
    (admin.name ≡ "admin" → find_credential "admin" (guest ∷ admin ∷ []) ≡ some admin)
    × (find_credential "admin" (guest ∷ [])
        ≡ (if "admin" == "" then first_of_list (guest ∷ []) else none))
find_credential_cases_example =
    find_credential_cases "admin" (guest ∷ []) [] admin (ground (arith, eq_iff "guest" "admin"), tt)
