-- ===== src/Scheduler/Collect/Ssh.antt =====
-- `collectSSH`: the device type, in lower case, chooses the platform; any other is taken for IOS.
use gcisco_exporter.Base.{◌⊎◌, inr, if◌then◌else◌}
use gcisco_exporter.Int.{ℤ}
use gcisco_exporter.Float.{Float64}
use gcisco_exporter.Error.{Error}
use gcisco_exporter.Text.{lower_is}
use gcisco_exporter.Config.{Device, Credential, Config}
use gcisco_exporter.Scheduler.World.{Results, Env, M, ◌>>=◌, pure, observe, unless_failed}
use gcisco_exporter.Scheduler.Collect.Nxos.{collect_ssh_nxos}
use gcisco_exporter.Scheduler.Collect.Iosxe.{collect_ssh_iosxe}
use gcisco_exporter.Scheduler.Collect.Ios.{collect_ssh_ios}

module _ {F : Type 0} ⦃fl : Float64 F⦄ (env : Env F) (d : Device) where
  unfoldable pub collect_platform : Config → Credential → M F (Results F)
  collect_platform cfg cred =
      if lower_is d.device_type "nxos"
      then collect_ssh_nxos env d cred cfg.metric_selection
      else if lower_is d.device_type "iosxe"
      then collect_ssh_iosxe env d cred cfg.metric_selection
      else collect_ssh_ios env d cred cfg.metric_selection

  unfoldable pub collect_ssh : Config → Credential → ℤ → M F (Error ⊎ Results F)
  collect_ssh cfg cred timeout = do
    err ← observe (λ t. env.dial t d cred timeout cfg.legacy_ciphers)
    unless_failed err "SSH connect" (do result ← collect_platform cfg cred; pure (inr result))
