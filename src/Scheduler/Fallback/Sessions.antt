-- ===== src/Scheduler/Fallback/Sessions.antt =====
-- `collectSSH`: only the connection decides whether the method fails; the commands do not.
use gcisco_exporter.Base.{
  ◌+◌, ◌≡◌, refl, sym, ap, ◌∙◌, String, true, false, Option, none, some, List, [], ◌∷◌, ◌⊎◌, inl,
  inr, if◌then◌else◌,
}
use gcisco_exporter.Float.{Float64}
use gcisco_exporter.Int.{ℤ}
use gcisco_exporter.Error.{Error, wrapped}
use gcisco_exporter.Text.{lower_is}
use gcisco_exporter.Config.{Device, Credential, Config, timeout_duration}
use gcisco_exporter.Scheduler.World.{Results, World, Env, ◌>>=◌, pure, observe, when, unless_failed}
use gcisco_exporter.Scheduler.Steps.{>>=-step, >>=-eq-some, ended_inj}
use gcisco_exporter.Scheduler.Collect.Shell.{run}
use gcisco_exporter.Scheduler.Collect.Ios.{
  go_on, stopped, ios_hardware, or_stop, continue, collect_ssh_ios,
}
use gcisco_exporter.Scheduler.Collect.Nxos.{collect_ssh_nxos}
use gcisco_exporter.Scheduler.Collect.Iosxe.{collect_ssh_iosxe}
use gcisco_exporter.Scheduler.Collect.Ssh.{collect_platform, collect_ssh}
use gcisco_exporter.Scheduler.Device.{attempt, collect_device, find_credential}
use gcisco_exporter.Scheduler.Fallback.{reported_up}
use gcisco_exporter.Scheduler.Fallback.Contract.{collect_device-first_success}

-- the world after the environment was asked once
abbrev pub later : {F : Type 0} → World F → World F
later w = record w { tick = w.tick + 1 }

module _ {F : Type 0} ⦃fl : Float64 F⦄ (env : Env F) (d : Device) (cfg : Config) (cred : Credential)
    (timeout : ℤ) where
  -- How `collectSSH` ends, by the outcome of the connection.
  abbrev pub SessionEnd : Option Error → World F → Error ⊎ Results F → World F → Type 0
  SessionEnd none w o w' = (result : Results F) × (o ≡ inr result)
  SessionEnd (some e) w o w' = (o ≡ inl (wrapped "SSH connect" e)) × (w' ≡ later w)

  dialed-SessionEnd :
      (r : Option Error) (w w' : World F) (o : Error ⊎ Results F)
      → unless_failed r "SSH connect"
          (collect_platform env d cfg cred >>= λ result. pure (inr result))
          (later w)
        ≡ some (o, w')
      → SessionEnd r w o w'
  unfolding unless_failed pure
  dialed-SessionEnd none w w' o e =
      let (result, u, ran, rest) =
        >>=-eq-some (collect_platform env d cfg cred) (λ result. pure (inr result)) (later w) w' o
          e in
      let (p, q) = ended_inj _ _ _ _ rest in (result, sym p)
  dialed-SessionEnd (some x) w w' o e = let (p, q) = ended_inj _ _ _ _ e in (sym p, sym q)

  -- A session that does not panic succeeds when the connection was made, whatever the commands
  -- answer; when it was not, it fails with the wrapped error and has done nothing else.
  pub collect_ssh-SessionEnd :
      (w w' : World F) (o : Error ⊎ Results F)
      → collect_ssh env d cfg cred timeout w ≡ some (o, w')
      → SessionEnd (env.dial w.tick d cred timeout cfg.legacy_ciphers) w o w'
  unfolding collect_ssh ◌>>=◌ observe
  collect_ssh-SessionEnd w w' o e =
      dialed-SessionEnd (env.dial w.tick d cred timeout cfg.legacy_ciphers) w w' o e

  ios_hardware_stopped :
      (w : World F) (x : Error)
      → env.execute w.tick d cred "show version" ≡ inl x
      → ios_hardware env d cred [] w ≡ some (stopped [], later w)
  unfolding ios_hardware run observe or_stop pure
  ios_hardware_stopped w x e =
      >>=-step (run env d cred "show version") _ w (later w) (inl x) (ap (λ r. some (r, later w)) e)

  collect_ssh_ios_stopped :
      (w : World F) (x : Error)
      → cfg.metric_selection.hardware_health ≡ true
      → env.execute w.tick d cred "show version" ≡ inl x
      → collect_ssh_ios env d cred cfg.metric_selection w ≡ some ([], later w)
  unfolding collect_ssh_ios continue when pure
  collect_ssh_ios_stopped w x h e =
      >>=-step (when cfg.metric_selection.hardware_health (go_on []) (ios_hardware env d cred [])) _
        w (later w) (stopped [])
        (ap (λ b. when b (go_on []) (ios_hardware env d cred []) w) h ∙ ios_hardware_stopped w x e)

  collect_ssh_ios_empty :
      (w : World F) (x : Error)
      → lower_is d.device_type "nxos" ≡ false
      → lower_is d.device_type "iosxe" ≡ false
      → cfg.metric_selection.hardware_health ≡ true
      → env.dial w.tick d cred timeout cfg.legacy_ciphers ≡ none
      → env.execute (w.tick + 1) d cred "show version" ≡ inl x
      → collect_ssh env d cfg cred timeout w ≡ some (inr [], later (later w))
  unfolding collect_ssh collect_platform observe unless_failed pure
  collect_ssh_ios_empty w x n i h dialed e =
      >>=-step (observe (λ t. env.dial t d cred timeout cfg.legacy_ciphers)) _ w (later w) none
        (ap (λ r. some (r, later w)) dialed)
      ∙ >>=-step (collect_platform env d cfg cred) _ (later w) (later (later w)) [] (
          ap
            (λ b.
              (if b
                  then collect_ssh_nxos env d cred cfg.metric_selection
                  else if lower_is d.device_type "iosxe"
                  then collect_ssh_iosxe env d cred cfg.metric_selection
                  else collect_ssh_ios env d cred cfg.metric_selection)
                (later w))
            n
          ∙ ap
              (λ b.
                (if b
                    then collect_ssh_iosxe env d cred cfg.metric_selection
                    else collect_ssh_ios env d cred cfg.metric_selection)
                  (later w))
              i
          ∙ collect_ssh_ios_stopped (later w) x h e)

module _ {F : Type 0} ⦃fl : Float64 F⦄ (env : Env F) (d : Device) (cfg : Config) where
  -- A device that is neither NX-OS nor IOS-XE, whose first method is SSH, is reported up with an empty
  -- result when the hardware category is selected, the connection is made and the first command, `show
  -- version`, fails, although nothing was collected.
  pub collect_device_empty_success :
      (cred : Credential) (others : List String) (w : World F) (x : Error)
      → find_credential d.credential_name cfg.credentials ≡ some cred
      → d.collection_methods ≡ "ssh" ∷ others
      → lower_is d.device_type "nxos" ≡ false
      → lower_is d.device_type "iosxe" ≡ false
      → cfg.metric_selection.hardware_health ≡ true
      → env.dial w.tick d cred (timeout_duration env.parse_duration cfg) cfg.legacy_ciphers ≡ none
      → env.execute (w.tick + 1) d cred "show version" ≡ inl x
      → collect_device env cfg d w ≡ some (none, reported_up env cfg d "ssh" [] (later (later w)))
  unfolding attempt
  collect_device_empty_success cred others w x found methods n i h dialed e =
      collect_device-first_success env cfg d cred found [] others "ssh" [] w w (later (later w))
        methods refl
        (collect_ssh_ios_empty env d cfg cred (timeout_duration env.parse_duration cfg) w x n i h
          dialed e)
