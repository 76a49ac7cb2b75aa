-- ===== src/Scheduler/Frame/Attempt.antt =====
-- One attempt by any method, known or not, only adds calls that its device owns.
use gcisco_exporter.Base.{◌==◌, String, Bool, true, false, if◌then◌else◌}
use gcisco_exporter.Float.{Float64}
use gcisco_exporter.Int.{ℤ}
use gcisco_exporter.Config.{Device, Credential, Config}
use gcisco_exporter.Text.{lower_is}
use gcisco_exporter.Metrics.{Call}
use gcisco_exporter.Scheduler.World.{Env, M}
use gcisco_exporter.Scheduler.Ownership.{Owned}
use gcisco_exporter.Scheduler.Collect.Ssh.{collect_platform, collect_ssh}
use gcisco_exporter.Scheduler.Device.{attempt}
use gcisco_exporter.Scheduler.Frame.Calm.{IsCalm}
use gcisco_exporter.Scheduler.Frame.{
  Frame, Frame-pure, Frame-observe, Frame->>=, Frame-unless_failed,
}
use gcisco_exporter.Scheduler.Frame.Json.{Frame-collect_json}
use gcisco_exporter.Scheduler.Frame.Basic.{Frame-collect_restconf, Frame-collect_netconf}
use gcisco_exporter.Scheduler.Frame.Shell.Nxos.{Frame-collect_ssh_nxos}
use gcisco_exporter.Scheduler.Frame.Shell.Iosxe.{Frame-collect_ssh_iosxe}
use gcisco_exporter.Scheduler.Frame.Shell.Ios.{Frame-collect_ssh_ios}

Frame-if :
    {F A : Type 0} {P : Call F → Type 0} {N : Type 0} (b : Bool) {m n : M F A}
    → Frame P N m
    → Frame P N n
    → Frame P N (if b then m else n)
Frame-if true h k = h
Frame-if false h k = k

module _ {F : Type 0} ⦃fl : Float64 F⦄ (env : Env F) (cfg : Config) (d : Device)
    (cred : Credential) where
  Frame-collect_platform :
      Frame (Owned {F = F} cfg.metric_selection d) (IsCalm env) (collect_platform env d cfg cred)
  unfolding collect_platform
  Frame-collect_platform =
      Frame-if (lower_is d.device_type "nxos")
        (Frame-collect_ssh_nxos env d cred cfg.metric_selection)
        (Frame-if (lower_is d.device_type "iosxe")
          (Frame-collect_ssh_iosxe env d cred cfg.metric_selection)
          (Frame-collect_ssh_ios env d cred cfg.metric_selection))

  Frame-collect_ssh :
      (timeout : ℤ)
      → Frame
          (Owned {F = F} cfg.metric_selection d)
          (IsCalm env)
          (collect_ssh env d cfg cred timeout)
  unfolding collect_ssh
  Frame-collect_ssh timeout =
      Frame->>= (Frame-observe _)
        λ err. Frame-unless_failed err _ (Frame->>= Frame-collect_platform λ r. Frame-pure _)

  pub Frame-attempt :
      (timeout : ℤ) (method : String)
      → Frame
          (Owned {F = F} cfg.metric_selection d)
          (IsCalm env)
          (attempt env cfg d cred timeout method)
  unfolding attempt
  Frame-attempt timeout method =
      Frame-if (method == "json") (Frame-collect_json env d cfg cred timeout) (
        Frame-if (method == "ssh") (Frame-collect_ssh timeout) (
          Frame-if (method == "restconf") (Frame-collect_restconf env d cfg cred)
            (Frame-if (method == "netconf") (Frame-collect_netconf env d cfg cred) (Frame-pure _))))
