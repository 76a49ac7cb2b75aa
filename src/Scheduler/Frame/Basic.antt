-- ===== src/Scheduler/Frame/Basic.antt =====
-- `collectRESTCONF` and `collectNETCONF` only add calls that their device owns.
use gcisco_exporter.Base.{ℕ, ◌≡◌, true, flat_map, All-flat_map}
use gcisco_exporter.Float.{Float64}
use gcisco_exporter.Config.{MetricSelection, Device, Credential, Config}
use gcisco_exporter.Provider.Basic.{BasicProvider}
use gcisco_exporter.Scheduler.World.{Results, Env}
use gcisco_exporter.Scheduler.Ownership.{Owned}
use gcisco_exporter.Scheduler.Ownership.Calls.{
  system_calls-Reported, basic_resource_calls-Reported, process_calls-Reported,
  basic_interface_calls-Owned,
}
use gcisco_exporter.Scheduler.Collect.Calls.{process_calls, basic_interface_calls}
use gcisco_exporter.Scheduler.Collect.Basic.{
  basic_hardware, basic_ifaces, basic_sections, collect_restconf, collect_netconf,
}
use gcisco_exporter.Scheduler.Frame.Calm.{BasicIsCalm, IsCalm, Accepted, Accepted-returns}
use gcisco_exporter.Scheduler.Frame.{
  Frame, Frame-under, Frame-pure, Frame-observe, Frame-consult, Frame->>=, Frame->>, Frame-when,
  Frame-unless_failed, Frame-on_ok,
}
use gcisco_exporter.Scheduler.Frame.Reports.{
  Frame-consult_then, Frame-emit_counted, Frame-emit_all, Frame-on_success,
}

-- the provider does not panic, and gives no counter a number below zero
abbrev BasicIsCounted : {F : Type 0} ⦃fl : Float64 F⦄ → BasicProvider F → Type 0
BasicIsCounted p =
    BasicIsCalm p
    × ((t : ℕ) (d : Device) (c : Credential)
        → Accepted (flat_map (basic_interface_calls d)) (p.collect_interfaces t d c))

module _ {F : Type 0} ⦃fl : Float64 F⦄ (p : BasicProvider F) (d : Device) (cred : Credential)
    (ms : MetricSelection) where
  Frame-basic_hardware :
      (r : Results F)
      → ms.hardware_health ≡ true
      → Frame (Owned {F = F} ms d) (BasicIsCounted p) (basic_hardware p d cred r)
  unfolding basic_hardware
  Frame-basic_hardware r h =
      Frame->>= (Frame-consult _ (λ q t. q.0.collect_system t d cred)) λ (sys, err).
        Frame-unless_failed err _ (
          Frame->> (Frame-emit_all _ (system_calls-Reported F ms d sys h)) (
            Frame->>= (Frame-consult _ (λ q t. q.0.collect_resources t d cred)) λ (res, err).
              Frame->> (Frame-on_success err _ (basic_resource_calls-Reported F ms d res h)) (
                Frame->>= (Frame-consult _ (λ q t. q.0.collect_processes t d cred d.process_limit))
                  λ (procs, err).
                    Frame->>
                      (Frame-on_success err _ (
                        All-flat_map _ (process_calls d) procs
                          (λ q. process_calls-Reported F ms d q h)))
                      (Frame-pure _))))

  Frame-basic_ifaces :
      (r : Results F)
      → ms.interfaces ≡ true
      → Frame (Owned {F = F} ms d) (BasicIsCounted p) (basic_ifaces p d cred r)
  unfolding basic_ifaces
  Frame-basic_ifaces r h =
      Frame-consult_then (λ t. p.collect_interfaces t d cred) _
        (λ q t. q.0.collect_interfaces t d cred)
        λ t ifaces err answered.
          Frame->>
            (Frame-emit_counted _
              (All-flat_map _ (basic_interface_calls d) ifaces
                (λ i. basic_interface_calls-Owned F ms d i h))
              (λ q. Accepted-returns _ answered (q.1 t d cred)))
            (Frame-pure _)

  Frame-basic_sections : Frame (Owned {F = F} ms d) (BasicIsCounted p) (basic_sections p d cred ms)
  unfolding basic_sections
  Frame-basic_sections = Frame->>= (Frame-when ms.hardware_health _ (Frame-basic_hardware _)) λ r.
      Frame-on_ok r λ result.
        Frame->>= (Frame-when ms.interfaces result (Frame-basic_ifaces result))
          λ result. Frame-pure _

module _ {F : Type 0} ⦃fl : Float64 F⦄ (env : Env F) (d : Device) (cfg : Config)
    (cred : Credential) where
  pub Frame-collect_restconf :
      Frame (Owned {F = F} cfg.metric_selection d) (IsCalm env) (collect_restconf env d cfg cred)
  unfolding collect_restconf
  Frame-collect_restconf =
      Frame-under (λ q. (q.restconf, q.counts.restconf_accepted))
        (Frame-basic_sections env.restconf d cred cfg.metric_selection)

  pub Frame-collect_netconf :
      Frame (Owned {F = F} cfg.metric_selection d) (IsCalm env) (collect_netconf env d cfg cred)
  unfolding collect_netconf
  Frame-collect_netconf = Frame->>= (Frame-observe _) λ err. Frame-unless_failed err _ (
      Frame-under (λ q. (q.netconf, q.counts.netconf_accepted))
        (Frame-basic_sections env.netconf d cred cfg.metric_selection))
