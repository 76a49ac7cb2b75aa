-- ===== src/Worker.antt =====
-- internal/worker/worker.go: the pool of workers. A state is what stands between two atomic actions of
-- the goroutines: the channel and its receivers, the wait group, and the caller that holds the mutex of
-- `Submit` while its job waits for room in the channel. `J` is the type of the jobs.
pub mod Cases
pub mod Invariant
pub mod Progress
use gcisco_exporter.Base.{
  ℕ, zero, suc, ◌+◌, ◌-◌, ◌*◌, ltb, Option, none, some, List, [], ◌∷◌, ◌++◌, length, if◌then◌else◌,
  ◌≡◌,
}
use gcisco_exporter.Int.{ℤ, pos, negsuc}

pub record Pool (J : Type 0) : Type 0 where
  pub workers : ℕ
  -- the buffered jobs, the oldest first
  pub jobs : List J
  -- the counter of the wait group
  pub wg : ℕ
  -- the job of the caller that holds the mutex, after `p.wg.Add(1)` and before the send
  pub sending : Option J
  -- the workers that wait for a job, and the jobs that the others are in
  pub idle : ℕ
  pub running : List J
  -- the jobs that have been submitted, and those that have returned
  pub submitted : List J
  pub finished : List J

module _ {J : Type 0} where
  -- the capacity of the channel, `workers*2`
  abbrev pub capacity : Pool J → ℕ
  capacity p = p.workers * 2

  -- `New`, with its workers at the head of their loops; `make` panics on a negative capacity.
  unfoldable pub new : ℤ → Option (Pool J)
  new (negsuc n) = none
  new (pos n) = some (record {
    workers = n;
    jobs = [];
    wg = 0;
    sending = none;
    idle = n;
    running = [];
    submitted = [];
    finished = [];
  })

  -- `Submit` up to the send: `none` while another caller holds the mutex.
  unfoldable pub submit : J → Pool J → Option (Pool J)
  submit j p = elim p.sending [
    | some k ↦ none
    | none ↦ some (record p { wg = p.wg + 1; sending = some j; submitted = j ∷ p.submitted })
  ]

  -- `p.jobs <- job` and the return of `Submit`: `none` while the channel is full.
  unfoldable pub send : Pool J → Option (Pool J)
  send p = elim p.sending [
    | none ↦ none
    | some j ↦
        if ltb (length p.jobs) (capacity p)
        then some (record p { jobs = p.jobs ++ j ∷ []; sending = none })
        else none
  ]

  -- A worker receives a job: `none` while the channel is empty or all workers are in a job.
  unfoldable pub receive : Pool J → Option (Pool J)
  receive p = elim p.jobs [
    | [] ↦ none
    | j ∷ rest ↦ elim p.idle [
      | zero ↦ none
      | suc n ↦ some (record p { jobs = rest; idle = n; running = j ∷ p.running })
    ]
  ]

  -- The `k`-th of the running jobs, with the jobs beside it.
  unfoldable pub pick : ℕ → List J → Option (J × List J)
  pick k [] = none
  pick zero (j ∷ js) = some (j, js)
  pick (suc k) (j ∷ js) = elim (pick k js) [ none ↦ none | some (i, rest) ↦ some (i, j ∷ rest) ]

  -- The `k`-th of the running jobs returns, and its worker calls `p.wg.Done()`. Which jobs
  -- return is not said here (Worker/Progress).
  unfoldable pub done : ℕ → Pool J → Option (Pool J)
  unfolding pick
  done k p = elim (pick k p.running) [
    | none ↦ none
    | some (j, rest) ↦
        some
          (record p { wg = p.wg - 1; idle = p.idle + 1; running = rest; finished = j ∷ p.finished })
  ]

  -- `Wait` returns.
  abbrev pub WaitReturns : Pool J → Type 0
  WaitReturns p = p.wg ≡ 0

  -- What the workers and the sender do by themselves.
  pub data Internal (p q : Pool J) : Type 0 where
    sends : send p ≡ some q → Internal p q
    receives : receive p ≡ some q → Internal p q
    finishes : (k : ℕ) → done k p ≡ some q → Internal p q

  -- What can happen next in any interleaving of the goroutines.
  pub data Step (p q : Pool J) : Type 0 where
    submits : (j : J) → submit j p ≡ some q → Step p q
    internal : Internal p q → Step p q

  -- The states that a pool of `New(workers)` comes to.
  pub data Reachable (workers : ℤ) : Pool J → Type 0 where
    initial : {p : Pool J} → new workers ≡ some p → Reachable workers p
    next : {p q : Pool J} → Reachable workers p → Step p q → Reachable workers q
