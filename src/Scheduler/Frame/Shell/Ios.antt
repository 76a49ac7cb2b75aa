-- ===== src/Scheduler/Frame/Shell/Ios.antt =====
-- `collectSSHIOS` only adds calls that its device owns, in selected categories.
use gcisco_exporter.Base.{◌≡◌, refl, String, true, All-flat_map}
use gcisco_exporter.Float.{Float64}
use gcisco_exporter.Error.{Error}
use gcisco_exporter.Config.{MetricSelection, Device, Credential}
use gcisco_exporter.Scheduler.World.{Results, Env}
use gcisco_exporter.Scheduler.Ownership.{Owned}
use gcisco_exporter.Scheduler.Ownership.Single.{
  cpu-Reported, ntp-Reported, flash-Reported, arp-Reported, route-Reported, mac-Reported,
}
use gcisco_exporter.Scheduler.Ownership.Calls.{
  cli_version_calls-Reported, cli_interface_calls-Owned,
}
use gcisco_exporter.Scheduler.Ownership.Tables.{
  ios_vlan_calls-Reported, set_stp_blocked_ports-Reported,
}
use gcisco_exporter.Scheduler.Collect.Calls.{cli_interface_calls}
use gcisco_exporter.Scheduler.Frame.Calm.{IsCalm}
use gcisco_exporter.Scheduler.Frame.{Frame, Frame-pure, Frame->>=, Frame->>, Frame-when}
use gcisco_exporter.Scheduler.Frame.Reports.{Frame-emit_counted, Frame-emit_all}
use gcisco_exporter.Scheduler.Frame.Shell.{
  Frame-run, Frame-run_then, Frame-report, Frame-if_replied,
}
use gcisco_exporter.Metrics.{Call}
use gcisco_exporter.Scheduler.World.{M}
use gcisco_exporter.Base.{◌⊎◌, inl, inr}
use gcisco_exporter.Scheduler.Collect.Ios.{
  Flow, go_on, stopped, continue, or_stop, ios_hardware, ios_interfaces, ios_layer2, ios_layer3,
  ios_maintenance, ios_tables, collect_ssh_ios,
}

module _ {F : Type 0} {P : Call F → Type 0} {N : Type 0} where
  Frame-continue :
      (flow : Flow F) {k : Results F → M F (Results F)}
      → ((r : Results F) → Frame P N (k r))
      → Frame P N (continue flow k)
  unfolding continue
  Frame-continue (go_on r) h = h r
  Frame-continue (stopped r) h = Frame-pure r

  Frame-or_stop :
      (o : Error ⊎ String) (r : Results F) {k : String → M F (Flow F)}
      → ((out : String) → Frame P N (k out))
      → Frame P N (or_stop o r k)
  unfolding or_stop
  Frame-or_stop (inl e) r h = Frame-pure _
  Frame-or_stop (inr out) r h = h out

  Frame-or_stop_known :
      (o : Error ⊎ String) (r : Results F) {k : String → M F (Flow F)}
      → ((out : String) → o ≡ inr out → Frame P N (k out))
      → Frame P N (or_stop o r k)
  unfolding or_stop
  Frame-or_stop_known (inl e) r h = Frame-pure _
  Frame-or_stop_known (inr out) r h = h out refl

module _ {F : Type 0} ⦃fl : Float64 F⦄ (env : Env F) (d : Device) (cred : Credential)
    (ms : MetricSelection) where
  Frame-ios_hardware :
      (r : Results F)
      → ms.hardware_health ≡ true
      → Frame (Owned {F = F} ms d) (IsCalm env) (ios_hardware env d cred r)
  unfolding ios_hardware
  Frame-ios_hardware r h = Frame->>= (Frame-run env d cred _) λ ver. Frame-or_stop ver r λ ver_out.
      Frame->> (Frame-emit_all _ (cli_version_calls-Reported F ms d _ h)) (
        Frame->>= (Frame-run env d cred _) λ c.
          Frame->>=
            (Frame-if_replied c _
              λ out. Frame->> (Frame-emit_all _ (cpu-Reported F ms d _ h)) (Frame-pure _))
            λ result. Frame->>= (Frame-run env d cred _) λ e. Frame-pure _)

  Frame-ios_interfaces :
      (r : Results F)
      → ms.interfaces ≡ true
      → Frame (Owned {F = F} ms d) (IsCalm env) (ios_interfaces env d cred r)
  unfolding ios_interfaces
  Frame-ios_interfaces r h = Frame-run_then env d cred "show interface" _ λ t.
      Frame-or_stop_known (env.execute t d cred "show interface") r λ out replied.
        Frame->>
          (Frame-emit_counted _
            (All-flat_map _ (cli_interface_calls d) (env.ios.parse_interfaces out)
              (λ i. cli_interface_calls-Owned F ms d i h))
            (λ q. q.counts.ios_accepted t d cred out replied))
          (Frame-pure _)

  Frame-ios_layer2 :
      (r : Results F)
      → ms.layer2_stability ≡ true
      → Frame (Owned {F = F} ms d) (IsCalm env) (ios_layer2 env d cred r)
  unfolding ios_layer2
  Frame-ios_layer2 r h = Frame->>= (Frame-run env d cred _) λ o.
      Frame->>
        (Frame-report o _
          (λ out. set_stp_blocked_ports-Reported F ms d (env.ios.parse_stp out).blocked_ports h))
        (Frame->>= (Frame-run env d cred _) λ v.
          Frame->>=
            (Frame-if_replied v r λ out.
              Frame->>
                (Frame-emit_all _ (ios_vlan_calls-Reported F ms d (env.ios.parse_vlans out) h))
                (Frame-pure _))
            λ result.
              Frame->>= (Frame-run env d cred _)
                λ m. Frame->> (Frame-emit_all _ (mac-Reported F ms d _ h)) (Frame-pure result))

  Frame-ios_layer3 :
      (r : Results F)
      → ms.layer3_tables ≡ true
      → Frame (Owned {F = F} ms d) (IsCalm env) (ios_layer3 env d cred r)
  unfolding ios_layer3
  Frame-ios_layer3 r h = Frame->>= (Frame-run env d cred _) λ o.
      Frame->> (Frame-report o _ (λ out. arp-Reported F ms d _ h)) (
        Frame->>= (Frame-run env d cred _)
          λ v. Frame->> (Frame-report v _ (λ out. route-Reported F ms d _ h)) (Frame-pure r))

  Frame-ios_maintenance :
      (r : Results F)
      → ms.system_maintenance ≡ true
      → Frame (Owned {F = F} ms d) (IsCalm env) (ios_maintenance env d cred r)
  unfolding ios_maintenance
  Frame-ios_maintenance r h = Frame->>= (Frame-run env d cred _) λ o.
      Frame->> (Frame-report o _ (λ out. ntp-Reported F ms d _ h)) (
        Frame->>= (Frame-run env d cred _)
          λ v. Frame->> (Frame-report v _ (λ out. flash-Reported F ms d _ h)) (Frame-pure r))

  Frame-ios_tables :
      (r : Results F) → Frame (Owned {F = F} ms d) (IsCalm env) (ios_tables env d cred ms r)
  unfolding ios_tables
  Frame-ios_tables r = Frame->>= (Frame-when ms.layer2_stability r (Frame-ios_layer2 r)) λ result.
      Frame->>= (Frame-when ms.layer3_tables result (Frame-ios_layer3 result))
        λ result. Frame-when ms.system_maintenance result (Frame-ios_maintenance result)

  pub Frame-collect_ssh_ios :
      Frame (Owned {F = F} ms d) (IsCalm env) (collect_ssh_ios env d cred ms)
  unfolding collect_ssh_ios
  Frame-collect_ssh_ios = Frame->>= (Frame-when ms.hardware_health _ (Frame-ios_hardware _)) λ flow.
      Frame-continue flow λ r.
        Frame->>= (Frame-when ms.interfaces _ (Frame-ios_interfaces r))
          λ flow. Frame-continue flow Frame-ios_tables
