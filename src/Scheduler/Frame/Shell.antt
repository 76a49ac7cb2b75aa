-- ===== src/Scheduler/Frame/Shell.antt =====
-- The rules for what a shell session is made of.
pub mod Nxos
pub mod Iosxe
pub mod Ios
use gcisco_exporter.Base.{ℕ, ◌≡◌, refl, String, List, All, ◌⊎◌, inl, inr}
use gcisco_exporter.Error.{Error}
use gcisco_exporter.Config.{Device, Credential}
use gcisco_exporter.Metrics.{Call}
use gcisco_exporter.Scheduler.World.{Results, Env, M, ◌>>=◌}
use gcisco_exporter.Scheduler.Collect.Shell.{run, report, if_replied}
use gcisco_exporter.Float.{Float64}
use gcisco_exporter.Scheduler.Frame.{Frame, Frame-pure, Frame-observe, Frame-observe_then}
use gcisco_exporter.Scheduler.Frame.Reports.{Steady, Frame-emit_all}

module _ {F : Type 0} {P : Call F → Type 0} {N : Type 0} where
  pub Frame-run :
      (env : Env F) (d : Device) (cred : Credential) (command : String)
      → Frame P N (run env d cred command)
  unfolding run
  Frame-run env d cred command = Frame-observe _

  pub Frame-report :
      ⦃fl : Float64 F⦄ (r : Error ⊎ String) (calls : String → List (Call F))
      → ((out : String) → All (Steady P) (calls out))
      → Frame P N (report r calls)
  unfolding report
  Frame-report (inl e) calls h = Frame-pure tt
  Frame-report (inr out) calls h = Frame-emit_all (calls out) (h out)

  -- the same, where what follows knows the output
  pub Frame-run_then :
      (env : Env F) (d : Device) (cred : Credential) (command : String) {A : Type 0}
      (k : Error ⊎ String → M F A)
      → ((t : ℕ) → Frame P N (k (env.execute t d cred command)))
      → Frame P N (run env d cred command >>= k)
  unfolding run
  Frame-run_then env d cred command k h = Frame-observe_then (λ t. env.execute t d cred command) k h

  pub Frame-if_replied_known :
      (r : Error ⊎ String) (result : Results F) {k : String → M F (Results F)}
      → ((out : String) → r ≡ inr out → Frame P N (k out))
      → Frame P N (if_replied r result k)
  unfolding if_replied
  Frame-if_replied_known (inl e) result h = Frame-pure result
  Frame-if_replied_known (inr out) result h = h out refl

  pub Frame-if_replied :
      (r : Error ⊎ String) (result : Results F) {k : String → M F (Results F)}
      → ((out : String) → Frame P N (k out))
      → Frame P N (if_replied r result k)
  unfolding if_replied
  Frame-if_replied (inl e) result h = Frame-pure result
  Frame-if_replied (inr out) result h = h out
