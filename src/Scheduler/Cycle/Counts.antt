-- ===== src/Scheduler/Cycle/Counts.antt =====
-- That a cycle comes to its end, and what it counts.
use gcisco_exporter.Base.{
  ◌+◌, ◌≤◌, ℕ, ◌≡◌, refl, ◌∙◌, sym, ap, String, Bool, true, false, Option, none, some, List, [],
  ◌∷◌, length, Map, insert, if◌then◌else◌, arith,
}
use gcisco_exporter.Float.{Float64}
use gcisco_exporter.Config.{Device, Config}
use gcisco_exporter.Scheduler.World.{World, Env, M, ◌>>=◌, observe, pure}
use gcisco_exporter.Scheduler.Steps.{>>=-eq-some, ended_inj}
use gcisco_exporter.Scheduler.Frame.{Frame-returns}
use gcisco_exporter.Scheduler.Frame.Calm.{IsCalm}
use gcisco_exporter.Scheduler.Fallback.Returns.{
  Returns, Returns-pure, Returns->>=, Returns-if, collect_device-Returns,
}
use gcisco_exporter.Scheduler.Cycle.Reach.{Frame-report_job}
use gcisco_exporter.Scheduler.Cycle.{job, run_jobs, run_collection, success_count, counted}

success_count-insert :
    (k : String) (ok : Bool) (m : Map Bool) → success_count (insert k ok m) ≤ success_count m + 1
unfolding success_count insert
success_count-insert k true [] = ground arith
success_count-insert k false [] = ground arith
success_count-insert k ok ((j, b) ∷ m) = ground (arith, success_count-insert k ok m)

module _ {F : Type 0} ⦃fl : Float64 F⦄ (env : Env F) (cfg : Config) where
  -- the results of a loop that was not cancelled
  abbrev Counted : ℕ → Option (Map Bool) → Type 0
  Counted n o = (results : Map Bool) × (o ≡ some results) × (success_count results ≤ n)

  round-Counted :
      (d : Device) (rest : Bool → M F (Option (Map Bool))) (n : ℕ) (done : Bool) (w w' : World F)
      (o : Option (Map Bool))
      → done ≡ false
      → (if done then pure none else (job env cfg d >>= rest)) w ≡ some (o, w')
      → ((ok : Bool) (u : World F) → rest ok u ≡ some (o, w') → Counted n o)
      → Counted n o
  round-Counted d rest n true w w' o c e ih = absurd cc
  round-Counted d rest n false w w' o c e ih =
      let (ok, u, ran, others) = >>=-eq-some (job env cfg d) rest w w' o e in ih ok u others

  run_jobs-Counted :
      ((t : ℕ) → env.is_cancelled t ≡ false)
      → (ds : List Device) (results : Map Bool) (w w' : World F) (o : Option (Map Bool))
      → run_jobs env cfg ds results w ≡ some (o, w')
      → Counted (success_count results + length ds) o
  unfolding run_jobs ◌>>=◌ observe pure
  run_jobs-Counted live [] results w w' o e =
      let (p, q) = ended_inj _ _ _ _ e in (results, sym p, ground arith)
  run_jobs-Counted live (d ∷ ds) results w w' o e =
      round-Counted d (λ ok. run_jobs env cfg ds (insert d.name ok results))
        (success_count results + length (d ∷ ds)) (env.is_cancelled w.tick)
        (record w { tick = w.tick + 1 }) w' o (live w.tick) e
        (λ ok u ran.
          let (out, same, below) = run_jobs-Counted live ds (insert d.name ok results) u w' o ran in
          (out, same, ground (arith, below, success_count-insert d.name ok results)))

  -- the count of a cycle that has come to its end
  run_collection-Counted :
      ((t : ℕ) → env.is_cancelled t ≡ false)
      → (w w' : World F) (r : Option ℕ) → run_collection env cfg w ≡ some (r, w')
      → (n : ℕ) × (r ≡ some n) × (n ≤ length cfg.devices)
  unfolding run_collection pure counted success_count
  run_collection-Counted live w w' r e =
      let (results, u, ran, last) =
        >>=-eq-some (run_jobs env cfg cfg.devices []) (λ results. pure (counted results)) w w' r
          e in
      let (out, same, below) = run_jobs-Counted live cfg.devices [] w u results ran in
      let (p, q) = ended_inj _ _ _ _ last in
      (success_count out, sym p ∙ ap counted same, ground (arith, below))

  Returns-observe : {A : Type 0} (f : ℕ → A) → Returns {F = F} (observe f)
  unfolding observe
  Returns-observe f = record { at = λ w. (f w.tick, record w { tick = w.tick + 1 }, refl) }

  Returns-job : IsCalm env → (d : Device) → Returns (job env cfg d)
  unfolding job
  Returns-job calm d = Returns->>= (Returns-observe (λ t. t)) λ start.
      Returns->>= (collect_device-Returns env cfg d calm)
        λ err. record { at = Frame-returns (Frame-report_job env cfg d start err) calm }

  Returns-run_jobs :
      IsCalm env → (ds : List Device) (results : Map Bool) → Returns (run_jobs env cfg ds results)
  unfolding run_jobs
  Returns-run_jobs calm [] results = Returns-pure (some results)
  Returns-run_jobs calm (d ∷ ds) results = Returns->>= (Returns-observe env.is_cancelled) λ done.
      Returns-if done (Returns-pure none)
        (Returns->>= (Returns-job calm d) λ ok. Returns-run_jobs calm ds (insert d.name ok results))

  pub run_collection-Returns : IsCalm env → Returns (run_collection env cfg)
  unfolding run_collection
  run_collection-Returns calm =
      Returns->>= (Returns-run_jobs calm cfg.devices []) (λ results. Returns-pure (counted results))

  -- When no provider and no parser panics, none returns a number below zero for a counter, and the context
  -- is not cancelled, a cycle whose jobs run one after another comes to its end from every world, and counts at most one success for each
  -- device.
  pub run_collection-counts :
      IsCalm env
      → ((t : ℕ) → env.is_cancelled t ≡ false)
      → (w : World F)
      → (n : ℕ) × (w' : World F) × (run_collection env cfg w ≡ some (some n, w'))
        × (n ≤ length cfg.devices)
  run_collection-counts calm live w =
      let (r, w', ran) = (run_collection-Returns calm).at w in
      let (n, same, below) = run_collection-Counted live w w' r ran in
      (n, w', ran ∙ ap (λ x. some (x, w')) same, below)
