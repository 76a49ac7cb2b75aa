-- ===== src/Worker/Invariant.antt =====
-- What holds of the pool in every interleaving: no job is lost or run twice, the wait group counts the
-- jobs that have not returned, and the channel keeps to its capacity.
use mathlib.Core.List.Perm
use gcisco_exporter.Base.{
  ℕ, suc, ◌+◌, ◌≤◌, ltb, ◌≡◌, refl, sym, ap, subst, ◌∙◌, Option, none, some, List, [], ◌∷◌, ◌++◌,
  append_assoc, length, length-append, arith, true, Perm, perm_middle, some-injective,
}
use gcisco_exporter.Int.{ℤ, pos, negsuc}
use gcisco_exporter.Worker.{
  Pool, capacity, new, WaitReturns, Internal, sends, receives, finishes, Step, submits, internal,
  Reachable, initial, next,
}
use gcisco_exporter.Worker.Cases.{
  after_submit, after_send, after_receive, after_done, submit-eq-some, send-eq-some,
  receive-eq-some, done-eq-some,
}

module _ {J : Type 0} where
  -- the jobs that a caller holds
  abbrev pub pending : Option J → List J
  pending none = []
  pending (some j) = j ∷ []

  -- The jobs that the pool holds, and those that have returned.
  abbrev pub everywhere : Pool J → List J
  everywhere p = pending p.sending ++ (p.jobs ++ (p.running ++ p.finished))

  -- The number of jobs that the pool holds.
  abbrev pub held : Pool J → ℕ
  held p = length (pending p.sending) + (length p.jobs + length p.running)

  pub record IsSound (p : Pool J) : Type 0 where
    pub counted : p.wg ≡ held p
    pub bounded : length p.jobs ≤ capacity p
    pub staffed : p.idle + length p.running ≡ p.workers
    pub conserved : Perm p.submitted (everywhere p)

  -- a sound pool whose sender is known
  at_sender :
      (p : Pool J) (o : Option J)
      → p.sending ≡ o
      → IsSound p
      → (p.wg ≡ length (pending o) + (length p.jobs + length p.running))
        × Perm p.submitted (pending o ++ (p.jobs ++ (p.running ++ p.finished)))
  at_sender p o e s = (
    s.counted ∙ ap (λ x. length (pending x) + (length p.jobs + length p.running)) e,
    subst (λ x. Perm p.submitted (pending x ++ (p.jobs ++ (p.running ++ p.finished)))) e
        s.conserved,
  )

  accept-IsSound : (j : J) (p : Pool J) → p.sending ≡ none → IsSound p → IsSound (after_submit j p)
  accept-IsSound j p o s =
      let (counted, conserved) = at_sender p none o s in
      record {
        counted = ground (arith, counted);
        bounded = s.bounded;
        staffed = s.staffed;
        conserved = Perm.cons j conserved;
      }

  -- a job moves from the sender to the end of the channel
  enqueue-IsSound :
      (j : J) (p : Pool J)
      → p.sending ≡ some j
      → ltb (length p.jobs) (capacity p) ≡ true
      → IsSound p
      → IsSound (after_send j p)
  enqueue-IsSound j p o room s =
      let (counted, conserved) = at_sender p (some j) o s in
      record {
        counted = ground (arith, counted, length-append p.jobs j);
        bounded = ground (arith, room, length-append p.jobs j);
        staffed = s.staffed;
        conserved = Perm.trans conserved (
            subst (λ l. Perm (j ∷ (p.jobs ++ (p.running ++ p.finished))) l)
              (sym (append_assoc p.jobs (j ∷ []) (p.running ++ p.finished)))
              (Perm.symm (perm_middle p.jobs (p.running ++ p.finished))));
      }

  -- a worker takes the head of the channel
  start-IsSound :
      (j : J) (rest : List J) (n : ℕ) (p : Pool J)
      → p.jobs ≡ j ∷ rest
      → p.idle ≡ suc n
      → IsSound p
      → IsSound (after_receive j rest n p)
  start-IsSound j rest n p o i s =
      let size : length p.jobs ≡ suc (length rest) = ap length o in
      record {
        counted = ground (arith, s.counted, size);
        bounded = ground (arith, s.bounded, size);
        staffed = ground (arith, s.staffed, i);
        conserved =
            Perm.trans
              (subst (λ l. Perm p.submitted (pending p.sending ++ (l ++ (p.running ++ p.finished))))
                o s.conserved)
              (Perm.append_left (pending p.sending)
                (Perm.symm (perm_middle rest (p.running ++ p.finished))));
      }

  -- one of the running jobs returns
  return-IsSound :
      (j : J) (rest : List J) (p : Pool J)
      → Perm p.running (j ∷ rest)
      → length p.running ≡ length rest + 1
      → IsSound p
      → IsSound (after_done j rest p)
  return-IsSound j rest p perm size s = record {
    counted = ground (arith, s.counted, size);
    bounded = s.bounded;
    staffed = ground (arith, s.staffed, size);
    conserved = Perm.trans s.conserved (
        Perm.append_left (pending p.sending) (
          Perm.append_left p.jobs (
            Perm.trans (Perm.append_right p.finished perm)
              (Perm.symm (perm_middle rest p.finished)))));
  }

  pub Internal-IsSound : (p q : Pool J) → Internal p q → IsSound p → IsSound q
  Internal-IsSound p q (sends e) s =
      let (j, o, room, after) = send-eq-some p q e in
      subst IsSound (sym after) (enqueue-IsSound j p o room s)
  Internal-IsSound p q (receives e) s =
      let (j, rest, n, o, i, after) = receive-eq-some p q e in
      subst IsSound (sym after) (start-IsSound j rest n p o i s)
  Internal-IsSound p q (finishes k e) s =
      let (j, rest, perm, size, after) = done-eq-some k p q e in
      subst IsSound (sym after) (return-IsSound j rest p perm size s)

  Step-IsSound : (p q : Pool J) → Step p q → IsSound p → IsSound q
  Step-IsSound p q (submits j e) s =
      let (o, after) = submit-eq-some j p q e in subst IsSound (sym after) (accept-IsSound j p o s)
  Step-IsSound p q (internal i) s = Internal-IsSound p q i s

  new-IsSound : (n : ℤ) (p : Pool J) → new n ≡ some p → IsSound p
  unfolding new
  new-IsSound (negsuc n) p e = absurd cc
  new-IsSound (pos n) p e = subst IsSound (some-injective _ _ e) (record {
    counted = refl;
    bounded = ground arith;
    staffed = ground arith;
    conserved = Perm.rfl;
  })

  -- In whatever order the goroutines run, the wait group counts the jobs that were submitted and have
  -- not returned, the channel never holds more than its capacity, each worker is idle or in one job,
  -- and each job that was submitted is held by the pool once or has returned once.
  pub Reachable-IsSound : {n : ℤ} {p : Pool J} → Reachable n p → IsSound p
  Reachable-IsSound {n} (initial {p} e) = new-IsSound n p e
  Reachable-IsSound (next {p} {q} r step) = Step-IsSound p q step (Reachable-IsSound r)

  -- nothing is held when the lengths of what is held add up to zero
  held-zero :
      (o : Option J) (jobs running finished : List J)
      → length (pending o) + (length jobs + length running) ≡ 0
      → pending o ++ (jobs ++ (running ++ finished)) ≡ finished
  held-zero none [] [] finished e = refl
  held-zero none [] (r ∷ running) finished e = absurd (ground arith)
  held-zero none (j ∷ jobs) running finished e = absurd (ground arith)
  held-zero (some j) jobs running finished e = absurd (ground arith)

  -- When `Wait` can return, the jobs that have returned are those that were submitted, each once.
  pub wait-all_finished :
      {n : ℤ} {p : Pool J} → Reachable n p → WaitReturns p → Perm p.submitted p.finished
  wait-all_finished {p} r w =
      let s = Reachable-IsSound r in
      subst (λ l. Perm p.submitted l)
        (held-zero p.sending p.jobs p.running p.finished (sym s.counted ∙ w)) s.conserved
