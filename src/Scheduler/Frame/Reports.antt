-- ===== src/Scheduler/Frame/Reports.antt =====
-- The rules for what a part of a collection reports, and for what follows an answer and knows it.
use gcisco_exporter.Base.{
  ℕ, ◌+◌, ◌≡◌, ◌≢◌, refl, Bool, true, false, Option, none, some, List, [], ◌∷◌, ◌++◌, All,
  if◌then◌else◌,
}
use gcisco_exporter.Error.{Error, Answer, panics, returns}
use gcisco_exporter.Float.{Float64}
use gcisco_exporter.Metrics.{Call, accepts, are_accepted}
use gcisco_exporter.Scheduler.World.{
  World, M, ◌>>=◌, from_answer, consult, checked, emit_all, on_success,
}
use gcisco_exporter.Scheduler.Frame.{Ends, Frame, Ends-trans, Extends-tick}

-- a call that is allowed and does not panic
abbrev pub Steady : {F : Type 0} ⦃fl : Float64 F⦄ → (Call F → Type 0) → Call F → Type 0
Steady P c = P c × (accepts c.op ≡ true)

module _ {F : Type 0} ⦃fl : Float64 F⦄ (P : Call F → Type 0) where
  pub All-Steady : (cs : List (Call F)) → All (Steady P) cs → All P cs
  All-Steady [] h = tt
  All-Steady (c ∷ cs) h = (h.0.0, All-Steady cs h.1)

  Steady-are_accepted : (cs : List (Call F)) → All (Steady P) cs → are_accepted cs ≡ true
  unfolding are_accepted
  Steady-are_accepted [] h = refl
  Steady-are_accepted (c ∷ cs) h = rw h.0.1 (Steady-are_accepted cs h.1)

  Ends-emit :
      (N : Type 0) (cs : List (Call F)) (w : World F) (b : Bool)
      → All P cs
      → (N → b ≡ true)
      → Ends P N w (if b then some (tt, record w { calls = w.calls ++ cs }) else none)
  Ends-emit N cs w true h k = record { store = refl; added = cs; calls = refl; allowed = h }
  Ends-emit N cs w false h k = λ n. let e = k n in absurd (cc)

module _ {F : Type 0} ⦃fl : Float64 F⦄ {P : Call F → Type 0} {N : Type 0} where
  -- calls that may add to a counter
  pub Frame-emit_counted :
      (cs : List (Call F)) → All P cs → (N → are_accepted cs ≡ true) → Frame P N (emit_all cs)
  unfolding emit_all
  Frame-emit_counted cs h k = record { at = λ w. Ends-emit P N cs w (are_accepted cs) h k }

  pub Frame-emit_all : (cs : List (Call F)) → All (Steady P) cs → Frame P N (emit_all cs)
  Frame-emit_all cs h = Frame-emit_counted cs (All-Steady P cs h) (λ n. Steady-are_accepted P cs h)

  pub Frame-on_success_counted :
      (e : Option Error) (cs : List (Call F))
      → All P cs
      → (N → are_accepted cs ≡ true)
      → Frame P N (emit_all (on_success e cs))
  unfolding on_success
  Frame-on_success_counted none cs h k = Frame-emit_counted cs h k
  Frame-on_success_counted (some e) cs h k = Frame-emit_all [] tt

  pub Frame-on_success :
      (e : Option Error) (cs : List (Call F))
      → All (Steady P) cs
      → Frame P N (emit_all (on_success e cs))
  Frame-on_success e cs h =
      Frame-on_success_counted e cs (All-Steady P cs h) (λ n. Steady-are_accepted P cs h)

module _ {F : Type 0} {P : Call F → Type 0} {N : Type 0} where
  Ends-consult_then :
      {A B : Type 0} (r : Answer A) (k : A × Option Error → M F B) (w : World F) (n : ℕ)
      → (N → r ≢ panics)
      → ((a : A) (e : Option Error) → r ≡ returns a e → Frame P N (k (a, e)))
      → Ends P N w
          (elim (from_answer r (record w { tick = n })) [ none ↦ none | some (a, u) ↦ k a u ])
  unfolding from_answer
  Ends-consult_then panics k w n h g = λ q. h q refl
  Ends-consult_then (returns a e) k w n h g =
      Ends-trans P N w (record w { tick = n }) (k (a, e) (record w { tick = n })) (Extends-tick w n)
        ((g a e refl).at (record w { tick = n }))

  -- a provider, and what follows it, which knows the answer
  pub Frame-consult_then :
      {A B : Type 0} (f : ℕ → Answer A) (k : A × Option Error → M F B)
      → (N → (t : ℕ) → f t ≢ panics)
      → ((t : ℕ) (a : A) (e : Option Error) → f t ≡ returns a e → Frame P N (k (a, e)))
      → Frame P N (consult f >>= k)
  unfolding consult ◌>>=◌
  Frame-consult_then f k h g = record {
    at = λ w. Ends-consult_then (f w.tick) k w (w.tick + 1) (λ q. h q w.tick) (g w.tick);
  }

  Ends-checked_then :
      {A B : Type 0} (o : Option A) (k : A → M F B) (w : World F)
      → (N → o ≢ none)
      → ((a : A) → o ≡ some a → Frame P N (k a))
      → Ends P N w (elim (checked o w) [ none ↦ none | some (a, u) ↦ k a u ])
  unfolding checked
  Ends-checked_then none k w h g = λ q. h q refl
  Ends-checked_then (some a) k w h g = (g a refl).at w

  pub Frame-checked_then :
      {A B : Type 0} (o : Option A) (k : A → M F B)
      → (N → o ≢ none)
      → ((a : A) → o ≡ some a → Frame P N (k a))
      → Frame P N (checked o >>= k)
  unfolding ◌>>=◌
  Frame-checked_then o k h g = record { at = λ w. Ends-checked_then o k w h g }
