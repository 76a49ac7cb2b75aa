-- ===== src/Worker/Cases.antt =====
-- When an operation of the pool goes through, and what the pool is afterwards.
use mathlib.Core.List.Perm
use gcisco_exporter.Base.{
  ℕ, zero, suc, Bool, ◌+◌, ◌-◌, ltb, ◌≡◌, refl, sym, ap, subst, Option, none, some, List, [], ◌∷◌,
  ◌++◌, length, if◌then◌else◌, arith, true, false, Perm, some-injective,
}
use gcisco_exporter.Worker.{Pool, capacity, submit, send, receive, pick, done}

module _ {J : Type 0} where
  -- the job that is picked and the others are the jobs there were
  pub pick-Perm :
      (k : ℕ) (js : List J) (j : J) (rest : List J)
      → pick k js ≡ some (j, rest)
      → Perm js (j ∷ rest) × (length js ≡ length rest + 1)
  unfolding pick
  pick-Perm k [] j rest e = absurd cc
  pick-Perm zero (i ∷ js) j rest e =
      let p : ◌≡◌ {A = J × List J} (i, js) (j, rest) = some-injective _ _ e in
      (
        Perm.cons' (ap (λ (t : J × List J). t.0) p)
            (subst (λ l. Perm js l) (ap (λ (t : J × List J). t.1) p) Perm.rfl),
        ground (arith, ap (λ (t : J × List J). length t.1) p),
      )
  pick-Perm (suc k) (i ∷ js) j rest e = go (pick k js) refl e (pick-Perm k js)
    where
      go :
          (o : Option (J × List J))
          → pick k js ≡ o
          → ◌≡◌ {A = Option (J × List J)}
              (elim o [ none ↦ none | some (x, more) ↦ some (x, i ∷ more) ])
              (some (j, rest))
          → ((x : J) (more : List J)
              → pick k js ≡ some (x, more)
              → Perm js (x ∷ more) × (length js ≡ length more + 1))
          → Perm (i ∷ js) (j ∷ rest) × (length (i ∷ js) ≡ length rest + 1)
      go none p e ih = absurd cc
      go (some (x, more)) p e ih =
          let q : ◌≡◌ {A = J × List J} (x, i ∷ more) (j, rest) = some-injective _ _ e in
          let (perm, size) = ih x more p in
          subst (λ (t : J × List J). Perm (i ∷ js) (t.0 ∷ t.1) × (suc (length js) ≡ length t.1 + 1))
            q (Perm.trans (Perm.cons i perm) (Perm.swap x i more), ground (arith, size))

  abbrev pub after_submit : J → Pool J → Pool J
  after_submit j p = record p { wg = p.wg + 1; sending = some j; submitted = j ∷ p.submitted }

  abbrev pub after_send : J → Pool J → Pool J
  after_send j p = record p { jobs = p.jobs ++ j ∷ []; sending = none }

  abbrev pub after_receive : J → List J → ℕ → Pool J → Pool J
  after_receive j rest n p = record p { jobs = rest; idle = n; running = j ∷ p.running }

  abbrev pub after_done : J → List J → Pool J → Pool J
  after_done j rest p = record p {
    wg = p.wg - 1;
    idle = p.idle + 1;
    running = rest;
    finished = j ∷ p.finished;
  }

  pub submit-eq-some :
      (j : J) (p q : Pool J) → submit j p ≡ some q → (p.sending ≡ none) × (q ≡ after_submit j p)
  unfolding submit
  submit-eq-some j p q e = go p.sending refl e
    where
      go :
          (o : Option J)
          → p.sending ≡ o
          → elim o [ some k ↦ none | none ↦ some (after_submit j p) ] ≡ some q
          → (p.sending ≡ none) × (q ≡ after_submit j p)
      go (some k) o e = absurd cc
      go none o e = (o, sym (some-injective _ _ e))

  pub send-eq-some :
      (p q : Pool J)
      → send p ≡ some q
      → (j : J) × (p.sending ≡ some j)
        × (ltb (length p.jobs) (capacity p) ≡ true)
        × (q ≡ after_send j p)
  unfolding send
  send-eq-some p q e = go p.sending refl (ltb (length p.jobs) (capacity p)) refl e
    where
      go :
          (o : Option J)
          → p.sending ≡ o
          → (b : Bool) → ltb (length p.jobs) (capacity p) ≡ b
          → elim o [ none ↦ none | some j ↦ if b then some (after_send j p) else none ] ≡ some q
          → (j : J) × (p.sending ≡ some j)
            × (ltb (length p.jobs) (capacity p) ≡ true)
            × (q ≡ after_send j p)
      go none o b room e = absurd cc
      go (some j) o true room e = (j, o, room, sym (some-injective _ _ e))
      go (some j) o false room e = absurd cc

  pub receive-eq-some :
      (p q : Pool J)
      → receive p ≡ some q
      → (j : J) × (rest : List J) × (n : ℕ) × (p.jobs ≡ j ∷ rest)
        × (p.idle ≡ suc n)
        × (q ≡ after_receive j rest n p)
  unfolding receive
  receive-eq-some p q e = go p.jobs refl p.idle refl e
    where
      go :
          (js : List J)
          → p.jobs ≡ js
          → (i : ℕ) → p.idle ≡ i
          → elim js [
            | [] ↦ none
            | j ∷ rest ↦ elim i [ zero ↦ none | suc n ↦ some (after_receive j rest n p) ]
          ]
            ≡ some q
          → (j : J) × (rest : List J) × (n : ℕ) × (p.jobs ≡ j ∷ rest)
            × (p.idle ≡ suc n)
            × (q ≡ after_receive j rest n p)
      go [] o i c e = absurd cc
      go (j ∷ rest) o zero c e = absurd cc
      go (j ∷ rest) o (suc n) c e = (j, rest, n, o, c, sym (some-injective _ _ e))

  pub done-eq-some :
      (k : ℕ) (p q : Pool J)
      → done k p ≡ some q
      → (j : J) × (rest : List J) × Perm p.running (j ∷ rest)
        × (length p.running ≡ length rest + 1)
        × (q ≡ after_done j rest p)
  unfolding done
  done-eq-some k p q e = go (pick k p.running) refl e
    where
      go :
          (o : Option (J × List J))
          → pick k p.running ≡ o
          → elim o [ none ↦ none | some (j, rest) ↦ some (after_done j rest p) ] ≡ some q
          → (j : J) × (rest : List J) × Perm p.running (j ∷ rest)
            × (length p.running ≡ length rest + 1)
            × (q ≡ after_done j rest p)
      go none o e = absurd cc
      go (some (j, rest)) o e =
          let (perm, size) = pick-Perm k p.running j rest o in
          (j, rest, perm, size, sym (some-injective _ _ e))
