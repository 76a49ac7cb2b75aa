-- ===== src/Scheduler/Frame/Shell/Nxos.antt =====
-- `collectSSHNXOS` only adds calls that its device owns, in selected categories.
use gcisco_exporter.Base.{◌≡◌, true, All-flat_map}
use gcisco_exporter.Float.{Float64}
use gcisco_exporter.Config.{MetricSelection, Device, Credential}
use gcisco_exporter.Scheduler.World.{Results, Env}
use gcisco_exporter.Scheduler.Ownership.{Owned}
use gcisco_exporter.Scheduler.Ownership.Single.{
  cpu-Reported, ntp-Reported, flash-Reported, arp-Reported, route-Reported,
}
use gcisco_exporter.Scheduler.Ownership.Calls.{
  cli_version_calls-Reported, cli_interface_calls-Owned,
}
use gcisco_exporter.Scheduler.Ownership.Hardware.{nxos_environment_calls-Reported}
use gcisco_exporter.Scheduler.Ownership.Tables.{
  nxos_vlan_calls-Reported, set_stp_blocked_ports-Reported,
}
use gcisco_exporter.Scheduler.Collect.Calls.{cli_interface_calls}
use gcisco_exporter.Scheduler.Frame.Calm.{IsCalm}
use gcisco_exporter.Scheduler.Frame.{Frame, Frame-pure, Frame->>=, Frame->>, Frame-when}
use gcisco_exporter.Scheduler.Frame.Reports.{Frame-checked_then, Frame-emit_counted, Frame-emit_all}
use gcisco_exporter.Scheduler.Frame.Shell.{
  Frame-run, Frame-report, Frame-if_replied, Frame-run_then, Frame-if_replied_known,
}
use gcisco_exporter.Scheduler.Collect.Nxos.{
  nxos_hardware, nxos_interfaces, nxos_layer2, nxos_layer3, nxos_maintenance, collect_ssh_nxos,
}

module _ {F : Type 0} ⦃fl : Float64 F⦄ (env : Env F) (d : Device) (cred : Credential)
    (ms : MetricSelection) where
  Frame-nxos_hardware :
      (r : Results F)
      → ms.hardware_health ≡ true
      → Frame (Owned {F = F} ms d) (IsCalm env) (nxos_hardware env d cred r)
  unfolding nxos_hardware
  Frame-nxos_hardware r h = Frame->>= (Frame-run env d cred _) λ ver.
      Frame->>= (Frame-run env d cred _) λ inv.
        Frame->> (Frame-emit_all _ (cli_version_calls-Reported F ms d _ h)) (
          Frame->>= (Frame-run env d cred _) λ c.
            Frame->>=
              (Frame-if_replied c _
                λ out. Frame->> (Frame-emit_all _ (cpu-Reported F ms d _ h)) (Frame-pure _))
              λ result. Frame->>= (Frame-run env d cred _) λ e.
                Frame->> (Frame-report e _ (λ out. nxos_environment_calls-Reported F ms d _ h))
                  (Frame-pure _))

  Frame-nxos_interfaces :
      (r : Results F)
      → ms.interfaces ≡ true
      → Frame (Owned {F = F} ms d) (IsCalm env) (nxos_interfaces env d cred r)
  unfolding nxos_interfaces
  Frame-nxos_interfaces r h = Frame-run_then env d cred "show interface" _ λ t.
      Frame-if_replied_known (env.execute t d cred "show interface") r λ out replied.
        Frame-checked_then (env.nxos.parse_interfaces out) _
          (λ q. q.nxos_interfaces t d cred out replied)
          λ ifaces parsed.
            Frame->>
              (Frame-emit_counted _
                (All-flat_map _ (cli_interface_calls d) ifaces
                  (λ i. cli_interface_calls-Owned F ms d i h))
                (λ q. q.counts.nxos_accepted t d cred out ifaces replied parsed))
              (Frame-pure _)

  Frame-nxos_layer2 :
      (r : Results F)
      → ms.layer2_stability ≡ true
      → Frame (Owned {F = F} ms d) (IsCalm env) (nxos_layer2 env d cred r)
  unfolding nxos_layer2
  Frame-nxos_layer2 r h = Frame->>= (Frame-run env d cred _) λ o.
      Frame->>
        (Frame-report o _
          (λ out. set_stp_blocked_ports-Reported F ms d (env.nxos.parse_stp out).blocked_ports h))
        (Frame->>= (Frame-run env d cred _) λ v. Frame-if_replied v r λ out.
          Frame->> (Frame-emit_all _ (nxos_vlan_calls-Reported F ms d (env.nxos.parse_vlans out) h))
            (Frame-pure _))

  Frame-nxos_layer3 :
      (r : Results F)
      → ms.layer3_tables ≡ true
      → Frame (Owned {F = F} ms d) (IsCalm env) (nxos_layer3 env d cred r)
  unfolding nxos_layer3
  Frame-nxos_layer3 r h = Frame->>= (Frame-run env d cred _) λ o.
      Frame->> (Frame-report o _ (λ out. arp-Reported F ms d _ h)) (
        Frame->>= (Frame-run env d cred _)
          λ v. Frame->> (Frame-report v _ (λ out. route-Reported F ms d _ h)) (Frame-pure r))

  Frame-nxos_maintenance :
      (r : Results F)
      → ms.system_maintenance ≡ true
      → Frame (Owned {F = F} ms d) (IsCalm env) (nxos_maintenance env d cred r)
  unfolding nxos_maintenance
  Frame-nxos_maintenance r h = Frame->>= (Frame-run env d cred _) λ o.
      Frame->> (Frame-report o _ (λ out. ntp-Reported F ms d _ h)) (
        Frame->>= (Frame-run env d cred _)
          λ v. Frame->> (Frame-emit_all _ (flash-Reported F ms d _ h)) (Frame-pure r))

  pub Frame-collect_ssh_nxos :
      Frame (Owned {F = F} ms d) (IsCalm env) (collect_ssh_nxos env d cred ms)
  unfolding collect_ssh_nxos
  Frame-collect_ssh_nxos =
      Frame->>= (Frame-when ms.hardware_health _ (Frame-nxos_hardware _)) λ result.
        Frame->>= (Frame-when ms.interfaces result (Frame-nxos_interfaces result)) λ result.
          Frame->>= (Frame-when ms.layer2_stability result (Frame-nxos_layer2 result)) λ result.
            Frame->>= (Frame-when ms.layer3_tables result (Frame-nxos_layer3 result))
              λ result. Frame-when ms.system_maintenance result (Frame-nxos_maintenance result)
