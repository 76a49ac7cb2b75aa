-- ===== src/Scheduler/Collect/Shell.antt =====
-- One command of a shell session, and what the three platforms do with its output.
use gcisco_exporter.Base.{String, ◌==◌, ◌⊎◌, inl, inr, List, if◌then◌else◌}
use gcisco_exporter.Error.{Error}
use gcisco_exporter.Float.{Float64}
use gcisco_exporter.Config.{Device, Credential}
use gcisco_exporter.Metrics.{Call}
use gcisco_exporter.Scheduler.World.{Results, Env, M, pure, observe, emit_all}

-- `Execute` returns the empty text beside an error.
unfoldable pub output_of : Error ⊎ String → String
output_of (inl e) = ""
output_of (inr s) = s

-- `if x != "" { y = x }`
unfoldable pub override : String → String → String
override x y = if x == "" then y else x

module _ {F : Type 0} where
  unfoldable pub run : Env F → Device → Credential → String → M F (Error ⊎ String)
  run env d cred command = observe (λ t. env.execute t d cred command)

  -- the branch of a command that did not fail, where it only reports
  unfoldable pub report :
      ⦃fl : Float64 F⦄ → Error ⊎ String → (String → List (Call F)) → M F (Unit {0})
  unfolding pure emit_all
  report (inl e) calls = pure tt
  report (inr out) calls = emit_all (calls out)

  -- the same, where it stores a result too
  unfoldable pub if_replied :
      Error ⊎ String → Results F → (String → M F (Results F)) → M F (Results F)
  unfolding pure
  if_replied (inl e) result k = pure result
  if_replied (inr out) result k = k out
