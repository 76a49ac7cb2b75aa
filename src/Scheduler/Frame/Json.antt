-- ===== src/Scheduler/Frame/Json.antt =====
-- `collectJSON` only adds calls that its device owns, in selected categories.
use gcisco_exporter.Base.{◌≡◌, true, All-flat_map}
use gcisco_exporter.Float.{Float64}
use gcisco_exporter.Int.{ℤ}
use gcisco_exporter.Config.{MetricSelection, Device, Credential, Config}
use gcisco_exporter.Scheduler.World.{Results, Env}
use gcisco_exporter.Scheduler.Ownership.{Owned}
use gcisco_exporter.Scheduler.Ownership.Calls.{
  system_calls-Reported, resource_calls-Reported, process_calls-Reported, interface_calls-Owned,
  optic_calls-Reported,
}
use gcisco_exporter.Scheduler.Ownership.Hardware.{hardware_calls-Reported}
use gcisco_exporter.Scheduler.Ownership.Tables.{
  stp_calls-Owned, mac_calls-Owned, vlan_calls-Reported, port_channel_calls-Reported,
  l3_calls-Reported, sys_info_calls-Reported, capacity_calls-Reported,
}
use gcisco_exporter.Scheduler.Collect.Calls.{process_calls, interface_calls, optic_calls}
use gcisco_exporter.Scheduler.Collect.Json.{
  json_hardware, json_interfaces, json_sections, collect_json,
}
use gcisco_exporter.Scheduler.Collect.Json.Tables.{
  json_layer2, json_ether_channel, json_layer3, json_maintenance, json_capacity,
}
use gcisco_exporter.Scheduler.Frame.Calm.{IsCalm, Accepted-returns}
use gcisco_exporter.Scheduler.Frame.{
  Frame, Frame-pure, Frame-observe, Frame-consult, Frame->>=, Frame->>, Frame-when,
  Frame-unless_failed, Frame-on_ok,
}
use gcisco_exporter.Scheduler.Frame.Reports.{
  Frame-consult_then, Frame-emit_counted, Frame-on_success_counted, Frame-emit_all,
  Frame-on_success,
}

module _ {F : Type 0} ⦃fl : Float64 F⦄ (env : Env F) (d : Device) (ms : MetricSelection) where
  Frame-json_hardware :
      (r : Results F)
      → ms.hardware_health ≡ true
      → Frame (Owned {F = F} ms d) (IsCalm env) (json_hardware env d r)
  unfolding json_hardware
  Frame-json_hardware r h =
      Frame->>= (Frame-consult _ (λ q t. q.json.collect_system t d)) λ (sys, err).
        Frame-unless_failed err _ (
          Frame->> (Frame-emit_all _ (system_calls-Reported F ms d sys h)) (
            Frame->>= (Frame-consult _ (λ q t. q.json.collect_resources t d)) λ (res, err).
              Frame->> (Frame-on_success err _ (resource_calls-Reported F ms d res h)) (
                Frame->>= (Frame-consult _ (λ q t. q.json.collect_processes t d d.process_limit))
                  λ (procs, err).
                    Frame->>
                      (Frame-on_success err _ (
                        All-flat_map _ (process_calls d) procs
                          (λ p. process_calls-Reported F ms d p h)))
                      (Frame->>= (Frame-consult _ (λ q t. q.json.collect_hardware t d)) λ (hw, err).
                        Frame->> (Frame-on_success err _ (hardware_calls-Reported F ms d hw h))
                          (Frame-pure _)))))

  Frame-json_interfaces :
      (r : Results F)
      → ms.interfaces ≡ true
      → Frame (Owned {F = F} ms d) (IsCalm env) (json_interfaces env d r)
  unfolding json_interfaces
  Frame-json_interfaces r h =
      Frame-consult_then (λ t. env.json.collect_interfaces t d) _
        (λ q t. q.json.collect_interfaces t d)
        λ t ifaces err answered.
          Frame->>
            (Frame-emit_counted _
              (All-flat_map _ (interface_calls d) ifaces (λ i. interface_calls-Owned F ms d i h))
              (λ q. Accepted-returns _ answered (q.counts.json_accepted t d)))
            (Frame->>= (Frame-consult _ (λ q t. q.json.collect_optics t d)) λ (opts, err).
              Frame->>
                (Frame-emit_all _
                  (All-flat_map _ (optic_calls d) opts (λ o. optic_calls-Reported F ms d o h)))
                (Frame-pure _))

  Frame-json_layer2 :
      (r : Results F)
      → ms.layer2_stability ≡ true
      → Frame (Owned {F = F} ms d) (IsCalm env) (json_layer2 env d r)
  unfolding json_layer2
  Frame-json_layer2 r h =
      Frame-consult_then (λ t. env.json.collect_stp t d) _ (λ q t. q.json.collect_stp t d)
        λ t tree err answered.
          Frame->>
            (Frame-on_success_counted err _ (stp_calls-Owned F ms d tree h)
              (λ q. Accepted-returns _ answered (q.counts.stp_accepted t d)))
            (Frame-consult_then (λ t. env.json.collect_mac t d) _ (λ q t. q.json.collect_mac t d)
              λ t table err answered.
                Frame->>
                  (Frame-on_success_counted err _ (mac_calls-Owned F ms d table h)
                    (λ q. Accepted-returns _ answered (q.counts.mac_accepted t d)))
                  (Frame->>= (Frame-consult _ (λ q t. q.json.collect_vlans t d)) λ (vs, err).
                    Frame->> (Frame-on_success err _ (vlan_calls-Reported F ms d vs h))
                      (Frame-pure _)))

  Frame-json_ether_channel :
      (r : Results F)
      → ms.etherchannel ≡ true
      → Frame (Owned {F = F} ms d) (IsCalm env) (json_ether_channel env d r)
  unfolding json_ether_channel
  Frame-json_ether_channel r h =
      Frame->>= (Frame-consult _ (λ q t. q.json.collect_port_channels t d)) λ (pcs, err).
        Frame->> (Frame-on_success err _ (port_channel_calls-Reported F ms d pcs h)) (Frame-pure _)

  Frame-json_layer3 :
      (r : Results F)
      → ms.layer3_tables ≡ true
      → Frame (Owned {F = F} ms d) (IsCalm env) (json_layer3 env d r)
  unfolding json_layer3
  Frame-json_layer3 r h =
      Frame->>= (Frame-consult _ (λ q t. q.json.collect_l3_tables t d)) λ (l3, err).
        Frame->> (Frame-on_success err _ (l3_calls-Reported F ms d l3 h)) (Frame-pure _)

  Frame-json_maintenance :
      (r : Results F)
      → ms.system_maintenance ≡ true
      → Frame (Owned {F = F} ms d) (IsCalm env) (json_maintenance env d r)
  unfolding json_maintenance
  Frame-json_maintenance r h =
      Frame->>= (Frame-consult _ (λ q t. q.json.collect_system_info t d)) λ (info, err).
        Frame->> (Frame-on_success err _ (sys_info_calls-Reported F ms d info h)) (Frame-pure _)

  Frame-json_capacity :
      (r : Results F)
      → ms.capacity_trends ≡ true
      → Frame (Owned {F = F} ms d) (IsCalm env) (json_capacity env d r)
  unfolding json_capacity
  Frame-json_capacity r h =
      Frame->>= (Frame-consult _ (λ q t. q.json.collect_capacity t d)) λ (c, err).
        Frame->> (Frame-on_success err _ (capacity_calls-Reported F ms d c h)) (Frame-pure _)

  Frame-json_sections : Frame (Owned {F = F} ms d) (IsCalm env) (json_sections env d ms)
  unfolding json_sections
  Frame-json_sections = Frame->>= (Frame-when ms.hardware_health _ (Frame-json_hardware _)) λ r.
      Frame-on_ok r λ result.
        Frame->>= (Frame-when ms.interfaces result (Frame-json_interfaces result)) λ result.
          Frame->>= (Frame-when ms.layer2_stability result (Frame-json_layer2 result)) λ result.
            Frame->>= (Frame-when ms.etherchannel result (Frame-json_ether_channel result))
              λ result.
                Frame->>= (Frame-when ms.layer3_tables result (Frame-json_layer3 result)) λ result.
                  Frame->>=
                    (Frame-when ms.system_maintenance result (Frame-json_maintenance result))
                    λ result.
                      Frame->>= (Frame-when ms.capacity_trends result (Frame-json_capacity result))
                        λ result. Frame-pure _

module _ {F : Type 0} ⦃fl : Float64 F⦄ (env : Env F) (d : Device) (cfg : Config) where
  pub Frame-collect_json :
      (cred : Credential) (timeout : ℤ)
      → Frame
          (Owned {F = F} cfg.metric_selection d)
          (IsCalm env)
          (collect_json env d cfg cred timeout)
  unfolding collect_json
  Frame-collect_json cred timeout =
      Frame->>= (Frame-observe _)
        λ err. Frame-unless_failed err _ (Frame-json_sections env d cfg.metric_selection)
