-- ===== src/Scheduler/Frame.antt =====
-- What a part of a collection may do: it leaves the cache alone, only adds calls that satisfy a
-- predicate, and does not panic under a condition. One rule for each way in which the actions of the scheduler are built.
pub mod Calm
pub mod Reports
pub mod Json
pub mod Basic
pub mod Shell
pub mod Attempt
use gcisco_exporter.Base.{
  ℕ, ◌+◌, ◌≡◌, ◌≢◌, refl, sym, ap, ◌∙◌, String, Bool, true, false, Option, none, some, List, [],
  ◌∷◌, ◌++◌, append-nil, append_assoc, All, All-append, ◌⊎◌, inl, inr, if◌then◌else◌,
}
use gcisco_exporter.Error.{Error, Answer, panics, returns}
use gcisco_exporter.Float.{Float64}
use gcisco_exporter.Metrics.{Call, accepts, are_accepted}
use gcisco_exporter.Scheduler.World.{
  World, M, ◌>>=◌, ◌>>◌, pure, observe, from_answer, consult, checked, emit_all, when,
  unless_failed, on_ok, on_success,
}

-- From the world `w` to `w'` the cache is the same and calls were added, each with `P`.
pub record Extends {F : Type 0} (P : Call F → Type 0) (w w' : World F) : Type 0 where
  pub store : w'.store ≡ w.store
  pub added : List (Call F)
  pub calls : w'.calls ≡ w.calls ++ added
  pub allowed : All P added

-- The end of a run that began at `w`: it has not panicked, or `N` does not hold.
abbrev pub Ends :
    {F A : Type 0} → (Call F → Type 0) → Type 0 → World F → Option (A × World F) → Type 0
Ends P N w none = ¬ N
Ends P N w (some (a, w')) = Extends P w w'

pub record Frame {F A : Type 0} (P : Call F → Type 0) (N : Type 0) (m : M F A) : Type 0 where
  pub at : (w : World F) → Ends P N w (m w)

module _ {F : Type 0} {P : Call F → Type 0} where
  pub Extends-refl : (w : World F) → Extends P w w
  Extends-refl w = record {
    store = refl;
    added = [];
    calls = sym (append-nil w.calls);
    allowed = tt;
  }

  pub Extends-trans : {u v w : World F} → Extends P u v → Extends P v w → Extends P u w
  Extends-trans {u} {v} {w} e f = record {
    store = f.store ∙ e.store;
    added = e.added ++ f.added;
    calls = f.calls ∙ ap (λ cs. cs ++ f.added) e.calls ∙ append_assoc u.calls e.added f.added;
    allowed = All-append P e.added f.added e.allowed f.allowed;
  }

  -- the instant passes, and nothing else happens
  pub Extends-tick : (w : World F) (n : ℕ) → Extends P w (record w { tick = n })
  Extends-tick w n = record {
    store = refl;
    added = [];
    calls = sym (append-nil w.calls);
    allowed = tt;
  }

module _ {F : Type 0} where
  Ends-answer :
      {A : Type 0} (Q : Call F → Type 0) (N : Type 0) (r : Answer A) (w : World F) (n : ℕ)
      → (N → r ≢ panics)
      → Ends Q N w (from_answer r (record w { tick = n }))
  unfolding from_answer
  Ends-answer Q N panics w n h = λ q. h q refl
  Ends-answer Q N (returns a e) w n h = Extends-tick {P = Q} w n

module _ {F : Type 0} where
  pub Ends-trans :
      (P : Call F → Type 0) (N : Type 0) {A : Type 0} (w v : World F) (r : Option (A × World F))
      → Extends P w v
      → Ends P N v r
      → Ends P N w r
  Ends-trans P N w v none e h = h
  Ends-trans P N w v (some (a, w')) e h = Extends-trans e h

  Ends-under :
      (P : Call F → Type 0) (N : Type 0) {A : Type 0} {N' : Type 0} (w : World F)
      (r : Option (A × World F))
      → (N → N')
      → Ends P N' w r
      → Ends P N w r
  Ends-under P N w none f h = λ n. h (f n)
  Ends-under P N w (some (a, u)) f h = h

  Ends-returns :
      (P : Call F → Type 0) (N : Type 0) {A : Type 0} (w : World F) (r : Option (A × World F))
      → N
      → Ends P N w r
      → (a : A) × (u : World F) × (r ≡ some (a, u))
  Ends-returns P N w none n h = absurd (h n)
  Ends-returns P N w (some (a, u)) n h = (a, u, refl)

module _ {F : Type 0} {P : Call F → Type 0} {N : Type 0} where
  pub Frame-pure : {A : Type 0} (a : A) → Frame P N (pure a)
  unfolding pure
  Frame-pure a = record { at = λ w. Extends-refl w }

  pub Frame-observe : {A : Type 0} (f : ℕ → A) → Frame P N (observe f)
  unfolding observe
  Frame-observe f = record { at = λ w. Extends-tick w (w.tick + 1) }

  pub Frame-consult :
      {A : Type 0} (f : ℕ → Answer A) → (N → (t : ℕ) → f t ≢ panics) → Frame P N (consult f)
  unfolding consult
  Frame-consult f h = record {
    at = λ w. Ends-answer P N (f w.tick) w (w.tick + 1) (λ q. h q w.tick);
  }

  Ends-bind :
      {A B : Type 0} (w : World F) (r : Option (A × World F)) (f : A → M F B)
      → Ends P N w r
      → ((a : A) → Frame P N (f a))
      → Ends P N w (elim r [ none ↦ none | some (a, w') ↦ f a w' ])
  Ends-bind w none f h k = h
  Ends-bind w (some (a, w')) f h k = Ends-trans P N w w' (f a w') h ((k a).at w')

  pub Frame->>= :
      {A B : Type 0} {m : M F A} {f : A → M F B}
      → Frame P N m
      → ((a : A) → Frame P N (f a))
      → Frame P N (m >>= f)
  unfolding ◌>>=◌
  Frame->>= {m} {f} h k = record { at = λ w. Ends-bind w (m w) f (h.at w) k }

  -- what an instant shows, and what follows it
  pub Frame-observe_then :
      {A B : Type 0} (f : ℕ → A) (k : A → M F B)
      → ((t : ℕ) → Frame P N (k (f t)))
      → Frame P N (observe f >>= k)
  unfolding observe ◌>>=◌
  Frame-observe_then f k h = record {
    at = λ w.
        Ends-trans P N w (record w { tick = w.tick + 1 })
          (k (f w.tick) (record w { tick = w.tick + 1 })) (Extends-tick w (w.tick + 1))
          ((h w.tick).at (record w { tick = w.tick + 1 }));
  }

  pub Frame->> :
      {A : Type 0} {m : M F (Unit {0})} {n : M F A} → Frame P N m → Frame P N n → Frame P N (m >> n)
  unfolding ◌>>◌
  Frame->> h k = Frame->>= h (λ _. k)

  pub Frame-when :
      {A : Type 0} (b : Bool) (a : A) {m : M F A}
      → (b ≡ true → Frame P N m)
      → Frame P N (when b a m)
  unfolding when
  Frame-when true a h = h refl
  Frame-when false a h = Frame-pure a

  pub Frame-unless_failed :
      {A : Type 0} (e : Option Error) (context : String) {m : M F (Error ⊎ A)}
      → Frame P N m
      → Frame P N (unless_failed e context m)
  unfolding unless_failed
  Frame-unless_failed none context h = h
  Frame-unless_failed (some e) context h = Frame-pure _

  pub Frame-on_ok :
      {A B : Type 0} (r : Error ⊎ A) {k : A → M F (Error ⊎ B)}
      → ((a : A) → Frame P N (k a))
      → Frame P N (on_ok r k)
  unfolding on_ok
  Frame-on_ok (inl e) h = Frame-pure _
  Frame-on_ok (inr a) h = h a

  -- a run of `m` that ended in `u`
  pub Frame-reaches :
      {A : Type 0} {m : M F A}
      → Frame P N m
      → (w u : World F) (a : A) → m w ≡ some (a, u)
      → Extends P w u
  Frame-reaches h w u a e = rw e at (h.at w)

  -- the same under a stronger condition
  pub Frame-under : {A : Type 0} {N' : Type 0} {m : M F A} → (N → N') → Frame P N' m → Frame P N m
  Frame-under {m} f h = record { at = λ w. Ends-under P N w (m w) f (h.at w) }

  -- a run that does not panic has an end
  pub Frame-returns :
      {A : Type 0} {m : M F A}
      → Frame P N m
      → N
      → (w : World F) → (a : A) × (u : World F) × (m w ≡ some (a, u))
  Frame-returns {m} h n w = Ends-returns P N w (m w) n (h.at w)
