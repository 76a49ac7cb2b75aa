-- ===== src/Worker/Progress.antt =====
-- Every schedule of the pool runs until `Wait` can return, once there is a worker and the jobs return.

use gcisco_exporter.Base.{
  ℕ, zero, suc, ◌+◌, ◌*◌, ◌≤◌, ◌<◌, ltb, ◌≡◌, refl, ap, ◌∙◌, Option, none, some, List, [], ◌∷◌,
  length, length-append, arith, true, ◌⊎◌, inl, inr, sym, subst, All, All-append, some-injective,
}
use gcisco_exporter.Int.{pos}
use gcisco_exporter.Worker.{
  Pool, new, send, receive, pick, done, WaitReturns, Internal, sends, receives, finishes, Step,
  submits, internal, Reachable, initial, next,
}
use gcisco_exporter.Worker.Cases.{
  after_send, after_receive, after_done, submit-eq-some, send-eq-some, receive-eq-some,
  done-eq-some,
}
use gcisco_exporter.Worker.Invariant.{pending, IsSound, Internal-IsSound, Reachable-IsSound}

-- the capacity of a pool with a worker
has_room : (n : ℕ) → ltb 0 (suc n * 2) ≡ true
has_room n = ground arith

module _ {J : Type 0} where
  -- how many moves the held jobs have before them
  abbrev moves_left : Pool J → ℕ
  moves_left p = 3 * length (pending p.sending) + (2 * length p.jobs + length p.running)

  internal_lem :
      (p q : Pool J) → Internal p q → (moves_left q < moves_left p) × (q.workers ≡ p.workers)
  internal_lem p q (sends e) =
      let (j, o, room, after) = send-eq-some p q e in
      (
        ground (
          arith,
          ap moves_left after,
          length-append p.jobs j,
          room,
          ap (λ x. length (pending x)) o,
        ),
        ap (λ x. x.workers) after,
      )
  internal_lem p q (receives e) =
      let (j, rest, n, o, i, after) = receive-eq-some p q e in
      (ground (arith, ap moves_left after, ap length o), ap (λ x. x.workers) after)
  internal_lem p q (finishes k e) =
      let (j, rest, perm, size, after) = done-eq-some k p q e in
      (ground (arith, ap moves_left after, size), ap (λ x. x.workers) after)

  pub Step-workers : (p q : Pool J) → Step p q → q.workers ≡ p.workers
  Step-workers p q (submits j e) =
      let (o, after) = submit-eq-some j p q e in ap (λ x. x.workers) after
  Step-workers p q (internal i) = (internal_lem p q i).1

  new-workers : (n : ℕ) (p : Pool J) → new (pos n) ≡ some p → p.workers ≡ n
  unfolding new
  new-workers n p e = cc

  Reachable-workers : {n : ℕ} {p : Pool J} → Reachable (pos n) p → p.workers ≡ n
  Reachable-workers {n} (initial {p} e) = new-workers n p e
  Reachable-workers (next {p} {q} r step) = Step-workers p q step ∙ Reachable-workers r

module _ {J : Type 0} where
  -- the pool after the return of a job that is known
  done-pick :
      (k : ℕ) (p q : Pool J) (j : J) (rest : List J)
      → pick k p.running ≡ some (j, rest)
      → done k p ≡ some q
      → q ≡ after_done j rest p
  unfolding done
  done-pick k p q j rest picked e = sym (some-injective _ _ (rw (done, picked) at e))

module _ {J : Type 0} (Ends : J → Type 0) where
  -- The moves of the workers and the sender, where a job returns only when `Ends` holds of it.
  pub data Moves (p q : Pool J) : Type 0 where
    moves_send : send p ≡ some q → Moves p q
    moves_receive : receive p ≡ some q → Moves p q
    moves_done :
        (k : ℕ) (j : J) (rest : List J)
        → pick k p.running ≡ some (j, rest)
        → Ends j
        → done k p ≡ some q
        → Moves p q

  -- Whatever runs next, a state is reached in which `Wait` returns, and until then something can run.
  pub data Settles : Pool J → Type 0 where
    settles :
        {p : Pool J}
        → (WaitReturns p ⊎ ((q : Pool J) × Moves p q))
        → ((q : Pool J) → Moves p q → Settles q)
        → Settles p

  -- every job that the pool holds returns
  pub record HeldEnd (p : Pool J) : Type 0 where
    pub sending : All Ends (pending p.sending)
    pub jobs : All Ends p.jobs
    pub running : All Ends p.running

  Moves-Internal : (p q : Pool J) → Moves p q → Internal p q
  Moves-Internal p q (moves_send e) = sends e
  Moves-Internal p q (moves_receive e) = receives e
  Moves-Internal p q (moves_done k j rest picked h e) = finishes k e

  pick-All :
      (k : ℕ) (js : List J) (j : J) (rest : List J)
      → pick k js ≡ some (j, rest)
      → All Ends js
      → All Ends rest
  unfolding pick
  pick-All k [] j rest e h = absurd cc
  pick-All zero (i ∷ js) j rest e h =
      let p : ◌≡◌ {A = J × List J} (i, js) (j, rest) = some-injective _ _ e in
      subst (λ (t : J × List J). All Ends t.1) p h.1
  pick-All (suc k) (i ∷ js) j rest e h = go (pick k js) refl e (pick-All k js)
    where
      go :
          (o : Option (J × List J))
          → pick k js ≡ o
          → ◌≡◌ {A = Option (J × List J)}
              (elim o [ none ↦ none | some (x, more) ↦ some (x, i ∷ more) ])
              (some (j, rest))
          → ((x : J) (more : List J) → pick k js ≡ some (x, more) → All Ends js → All Ends more)
          → All Ends rest
      go none p e ih = absurd cc
      go (some (x, more)) p e ih =
          let q : ◌≡◌ {A = J × List J} (x, i ∷ more) (j, rest) = some-injective _ _ e in
          subst (λ (t : J × List J). All Ends t.1) q (h.0, ih x more p h.1)

  Moves-HeldEnd : (p q : Pool J) → Moves p q → HeldEnd p → HeldEnd q
  Moves-HeldEnd p q (moves_send e) h =
      let (j, o, room, after) = send-eq-some p q e in
      subst HeldEnd (sym after) (record {
        sending = tt;
        jobs =
            All-append Ends p.jobs (j ∷ []) h.jobs (subst (λ x. All Ends (pending x)) o h.sending);
        running = h.running;
      })
  Moves-HeldEnd p q (moves_receive e) h =
      let (j, rest, n, o, i, after) = receive-eq-some p q e in
      let all = subst (All Ends) o h.jobs in
      subst HeldEnd (sym after)
        (record { sending = h.sending; jobs = all.1; running = (all.0, h.running) })
  Moves-HeldEnd p q (moves_done k j rest picked ends e) h =
      subst HeldEnd (sym (done-pick k p q j rest picked e)) (record {
        sending = h.sending;
        jobs = h.jobs;
        running = pick-All k p.running j rest picked h.running;
      })

  can_finish :
      (p : Pool J) (j : J) (js : List J) → p.running ≡ j ∷ js → HeldEnd p → (q : Pool J) × Moves p q
  unfolding done pick
  can_finish p j js e h = (
    after_done j js p,
    moves_done 0 j js (rw e refl) (subst (All Ends) e h.running).0 (rw e refl),
  )

  can_receive :
      (p : Pool J) (j : J) (js : List J) (n : ℕ)
      → p.jobs ≡ j ∷ js
      → p.idle ≡ suc n
      → (q : Pool J) × Moves p q
  unfolding receive
  can_receive p j js n e i = (after_receive j js n p, moves_receive (rw (e, i) refl))

  can_send :
      (p : Pool J) (j : J) (n : ℕ)
      → p.sending ≡ some j
      → p.jobs ≡ []
      → p.workers ≡ suc n
      → (q : Pool J) × Moves p q
  unfolding send
  can_send p j n o e w = (after_send j p, moves_send (rw (o, e, w, has_room n) refl))

  -- a pool with a worker whose wait group is not at zero
  progress :
      (p : Pool J) (n : ℕ)
      → p.workers ≡ suc n
      → IsSound p
      → HeldEnd p
      → WaitReturns p ⊎ ((q : Pool J) × Moves p q)
  progress p n w s ends = go p.running refl p.jobs refl p.sending refl p.idle refl
    where
      go :
          (r : List J)
          → p.running ≡ r
          → (js : List J) → p.jobs ≡ js
          → (o : Option J) → p.sending ≡ o
          → (i : ℕ) → p.idle ≡ i
          → WaitReturns p ⊎ ((q : Pool J) × Moves p q)
      go (j ∷ r) e js f o g i h = inr (can_finish p j r e ends)
      go [] e (j ∷ js) f o g (suc i) h = inr (can_receive p j js i f h)
      go [] e (j ∷ js) f o g zero h = absurd (ground (arith, s.staffed, ap length e, h, w))
      go [] e [] f (some j) g i h = inr (can_send p j n g f w)
      go [] e [] f none g i h =
          inl (ground (arith, s.counted, ap length e, ap length f, ap (λ x. length (pending x)) g))

  settle :
      (fuel : ℕ) (p : Pool J) (n : ℕ)
      → moves_left p ≤ fuel
      → p.workers ≡ suc n
      → IsSound p
      → HeldEnd p
      → Settles p
  settle zero p n m w s h =
      settles (progress p n w s h)
        (λ q i. absurd (ground (arith, m, (internal_lem p q (Moves-Internal p q i)).0)))
  settle (suc fuel) p n m w s h = settles (progress p n w s h) (λ q i.
      let step = Moves-Internal p q i in
      settle fuel q n (ground (arith, m, (internal_lem p q step).0)) ((internal_lem p q step).1 ∙ w)
        (Internal-IsSound p q step s) (Moves-HeldEnd p q i h))

  -- With at least one worker, and when every job that the pool holds returns, the pool never blocks: from
  -- every state that it comes to, the workers and the sender, in whatever order they run, reach a state in
  -- which `Wait` returns, unless another job is submitted before.
  pub Reachable-Settles : (n : ℕ) (p : Pool J) → Reachable (pos (suc n)) p → HeldEnd p → Settles p
  Reachable-Settles n p r h =
      settle (moves_left p) p n (ground arith) (Reachable-workers r) (Reachable-IsSound r) h
