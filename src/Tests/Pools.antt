-- ===== src/Tests/Pools.antt =====
-- A pool of one worker that is given two jobs.
use gcisco_exporter.Base.{ℕ, ◌≤◌, arith, refl, Option, none, some, List, [], ◌∷◌, Perm}
use gcisco_exporter.Int.{pos}
use gcisco_exporter.Worker.{
  Pool, new, submit, send, receive, pick, done, submits, internal, sends, receives, finishes,
  Reachable, initial, next,
}
use gcisco_exporter.Worker.Invariant.{IsSound, Reachable-IsSound, wait-all_finished}
use gcisco_exporter.Worker.Progress.{Settles, HeldEnd, Reachable-Settles}

abbrev pool : ℕ → List ℕ → Option ℕ → ℕ → List ℕ → List ℕ → List ℕ → Pool ℕ
pool wg jobs sending idle running submitted finished = record {
  workers = 1;
  jobs = jobs;
  wg = wg;
  sending = sending;
  idle = idle;
  running = running;
  submitted = submitted;
  finished = finished;
}

-- The first job is running, and the second is in the channel.
abbrev busy : Pool ℕ
busy = pool 2 (8 ∷ []) none 0 (7 ∷ []) (8 ∷ 7 ∷ []) []

busy-Reachable : Reachable (pos 1) busy
unfolding new submit send receive
busy-Reachable =
    next
      (next {q = pool 2 [] (some 8) 0 (7 ∷ []) (8 ∷ 7 ∷ []) []}
        (next {q = pool 1 [] none 0 (7 ∷ []) (7 ∷ []) []}
          (next {q = pool 1 (7 ∷ []) none 1 [] (7 ∷ []) []}
            (next {q = pool 1 [] (some 7) 1 [] (7 ∷ []) []}
              (initial {p = pool 0 [] none 1 [] [] []} refl) (submits 7 refl))
            (internal (sends refl)))
          (internal (receives refl)))
        (submits 8 refl))
      (internal (sends refl))

Reachable-IsSound_example : IsSound busy
Reachable-IsSound_example = Reachable-IsSound busy-Reachable

-- the jobs with a small number return
abbrev Small : ℕ → Type 0
Small n = n ≤ 8

busy-HeldEnd : HeldEnd Small busy
busy-HeldEnd = record { sending = tt; jobs = (omega arith, tt); running = (omega arith, tt) }

Reachable-Settles_example : Settles Small busy
Reachable-Settles_example = Reachable-Settles Small 0 busy busy-Reachable busy-HeldEnd

abbrev settled : Pool ℕ
settled = pool 0 [] none 1 [] (8 ∷ 7 ∷ []) (8 ∷ 7 ∷ [])

settled-Reachable : Reachable (pos 1) settled
unfolding receive done pick
settled-Reachable =
    next
      (next {q = pool 1 [] none 0 (8 ∷ []) (8 ∷ 7 ∷ []) (7 ∷ [])}
        (next {q = pool 1 (8 ∷ []) none 1 [] (8 ∷ 7 ∷ []) (7 ∷ [])} busy-Reachable
          (internal (finishes 0 refl)))
        (internal (receives refl)))
      (internal (finishes 0 refl))

wait-all_finished_example : Perm {A = ℕ} (8 ∷ 7 ∷ []) (8 ∷ 7 ∷ [])
wait-all_finished_example = wait-all_finished settled-Reachable refl
