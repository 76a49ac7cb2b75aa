-- ===== src/Scheduler/Frame/Shell/Iosxe.antt =====
-- `collectSSHIOSXE` only adds calls that its device owns, in selected categories.
use gcisco_exporter.Base.{◌≡◌, true, All-flat_map}
use gcisco_exporter.Float.{Float64}
use gcisco_exporter.Config.{MetricSelection, Device, Credential}
use gcisco_exporter.Scheduler.World.{Results, Env}
use gcisco_exporter.Scheduler.Ownership.{Owned}
use gcisco_exporter.Scheduler.Ownership.Single.{
  cpu-Reported, ntp-Reported, flash-Reported, arp-Reported, route-Reported, mac-Reported,
}
use gcisco_exporter.Scheduler.Ownership.Calls.{
  cli_version_calls-Reported, cli_interface_calls-Owned,
}
use gcisco_exporter.Scheduler.Ownership.Hardware.{iosxe_environment_calls-Reported}
use gcisco_exporter.Scheduler.Ownership.Tables.{
  iosxe_vlan_calls-Reported, set_stp_blocked_ports-Reported,
}
use gcisco_exporter.Scheduler.Collect.Calls.{cli_interface_calls}
use gcisco_exporter.Scheduler.Frame.Calm.{IsCalm}
use gcisco_exporter.Scheduler.Frame.{Frame, Frame-pure, Frame->>=, Frame->>, Frame-when}
use gcisco_exporter.Scheduler.Frame.Reports.{Frame-emit_counted, Frame-emit_all}
use gcisco_exporter.Scheduler.Frame.Shell.{
  Frame-run, Frame-run_then, Frame-report, Frame-if_replied, Frame-if_replied_known,
}
use gcisco_exporter.Scheduler.Collect.Iosxe.{
  iosxe_hardware, iosxe_interfaces, iosxe_layer2, iosxe_layer3, iosxe_maintenance,
  collect_ssh_iosxe,
}

module _ {F : Type 0} ⦃fl : Float64 F⦄ (env : Env F) (d : Device) (cred : Credential)
    (ms : MetricSelection) where
  Frame-iosxe_hardware :
      (r : Results F)
      → ms.hardware_health ≡ true
      → Frame (Owned {F = F} ms d) (IsCalm env) (iosxe_hardware env d cred r)
  unfolding iosxe_hardware
  Frame-iosxe_hardware r h = Frame->>= (Frame-run env d cred _) λ ver.
      Frame->>= (Frame-run env d cred _) λ inv.
        Frame->> (Frame-emit_all _ (cli_version_calls-Reported F ms d _ h)) (
          Frame->>= (Frame-run env d cred _) λ c.
            Frame->>=
              (Frame-if_replied c _
                λ out. Frame->> (Frame-emit_all _ (cpu-Reported F ms d _ h)) (Frame-pure _))
              λ result. Frame->>= (Frame-run env d cred _) λ e.
                Frame->> (Frame-report e _ (λ out. iosxe_environment_calls-Reported F ms d _ h))
                  (Frame-pure _))

  Frame-iosxe_interfaces :
      (r : Results F)
      → ms.interfaces ≡ true
      → Frame (Owned {F = F} ms d) (IsCalm env) (iosxe_interfaces env d cred r)
  unfolding iosxe_interfaces
  Frame-iosxe_interfaces r h = Frame-run_then env d cred "show interface" _ λ t.
      Frame-if_replied_known (env.execute t d cred "show interface") r λ out replied.
        Frame->>
          (Frame-emit_counted _
            (All-flat_map _ (cli_interface_calls d) (env.iosxe.parse_interfaces out)
              (λ i. cli_interface_calls-Owned F ms d i h))
            (λ q. q.counts.iosxe_accepted t d cred out replied))
          (Frame-pure _)

  Frame-iosxe_layer2 :
      (r : Results F)
      → ms.layer2_stability ≡ true
      → Frame (Owned {F = F} ms d) (IsCalm env) (iosxe_layer2 env d cred r)
  unfolding iosxe_layer2
  Frame-iosxe_layer2 r h = Frame->>= (Frame-run env d cred _) λ o.
      Frame->>
        (Frame-report o _
          (λ out. set_stp_blocked_ports-Reported F ms d (env.iosxe.parse_stp out).blocked_ports h))
        (Frame->>= (Frame-run env d cred _) λ v.
          Frame->>=
            (Frame-if_replied v r λ out.
              Frame->>
                (Frame-emit_all _ (iosxe_vlan_calls-Reported F ms d (env.iosxe.parse_vlans out) h))
                (Frame-pure _))
            λ result.
              Frame->>= (Frame-run env d cred _)
                λ m. Frame->> (Frame-emit_all _ (mac-Reported F ms d _ h)) (Frame-pure result))

  Frame-iosxe_layer3 :
      (r : Results F)
      → ms.layer3_tables ≡ true
      → Frame (Owned {F = F} ms d) (IsCalm env) (iosxe_layer3 env d cred r)
  unfolding iosxe_layer3
  Frame-iosxe_layer3 r h = Frame->>= (Frame-run env d cred _) λ o.
      Frame->> (Frame-report o _ (λ out. arp-Reported F ms d _ h)) (
        Frame->>= (Frame-run env d cred _)
          λ v. Frame->> (Frame-report v _ (λ out. route-Reported F ms d _ h)) (Frame-pure r))

  Frame-iosxe_maintenance :
      (r : Results F)
      → ms.system_maintenance ≡ true
      → Frame (Owned {F = F} ms d) (IsCalm env) (iosxe_maintenance env d cred r)
  unfolding iosxe_maintenance
  Frame-iosxe_maintenance r h = Frame->>= (Frame-run env d cred _) λ o.
      Frame->> (Frame-report o _ (λ out. ntp-Reported F ms d _ h)) (
        Frame->>= (Frame-run env d cred _)
          λ v. Frame->> (Frame-report v _ (λ out. flash-Reported F ms d _ h)) (Frame-pure r))

  pub Frame-collect_ssh_iosxe :
      Frame (Owned {F = F} ms d) (IsCalm env) (collect_ssh_iosxe env d cred ms)
  unfolding collect_ssh_iosxe
  Frame-collect_ssh_iosxe =
      Frame->>= (Frame-when ms.hardware_health _ (Frame-iosxe_hardware _)) λ result.
        Frame->>= (Frame-when ms.interfaces result (Frame-iosxe_interfaces result)) λ result.
          Frame->>= (Frame-when ms.layer2_stability result (Frame-iosxe_layer2 result)) λ result.
            Frame->>= (Frame-when ms.layer3_tables result (Frame-iosxe_layer3 result))
              λ result. Frame-when ms.system_maintenance result (Frame-iosxe_maintenance result)
