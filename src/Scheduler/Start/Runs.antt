-- ===== src/Scheduler/Start/Runs.antt =====
-- What `Start` does over all its cycles.
use gcisco_exporter.Base.{
  ℕ, ◌+◌, ◌≡◌, refl, ◌∙◌, ap, subst, Bool, true, false, Option, none, some, List, [], ◌∷◌, ◌++◌,
  append_assoc, All-append, if◌then◌else◌,
}
use gcisco_exporter.Float.{Float64}
use gcisco_exporter.Config.{Device, Config}
use gcisco_exporter.Scheduler.World.{World, Env, M, ◌>>=◌, pure, checked}
use gcisco_exporter.Scheduler.Steps.{>>=-step, >>=-eq-some, ended_inj}
use gcisco_exporter.Scheduler.Frame.Calm.{IsCalm}
use gcisco_exporter.Scheduler.Cycle.{run_collection}
use gcisco_exporter.Scheduler.Cycle.Reach.{OwnedByOne, Within, Within-refl, run_collection-Within}
use gcisco_exporter.Scheduler.Cycle.Counts.{run_collection-Returns}
use gcisco_exporter.Scheduler.Start.{Event, ticked, ctx_done, interval, is_positive, loop, start}

-- the ticks before the first cancellation
unfoldable pub ticks_before_done : List Event → ℕ
ticks_before_done [] = 0
ticks_before_done (ctx_done ∷ events) = 0
ticks_before_done (ticked ∷ events) = ticks_before_done events + 1

module _ {F : Type 0} where
  Within-trans :
      (cfg : Config) (ds : List Device) (u v w : World F)
      → Within cfg ds u v
      → Within cfg ds v w
      → Within cfg ds u w
  Within-trans cfg ds u v w g h = record {
    others = λ name n. h.others name n ∙ g.others name n;
    added = g.added ++ h.added;
    calls = h.calls ∙ ap (λ cs. cs ++ h.added) g.calls ∙ append_assoc u.calls g.added h.added;
    allowed = All-append (OwnedByOne cfg.metric_selection ds) g.added h.added g.allowed h.allowed;
  }

module _ {F : Type 0} where
  >>=-eq-none :
      {A B : Type 0} (m : M F A) (f : A → M F B) (w : World F)
      → ((a : A) (v : World F) → f a v ≡ none)
      → (m >>= f) w ≡ none
  unfolding ◌>>=◌
  >>=-eq-none {A = A} {B = B} m f w h = go (m w)
    where
      go :
          (r : Option (A × World F))
          → ◌≡◌ {A = Option (B × World F)} (elim r [ none ↦ none | some (a, v) ↦ f a v ]) none
      go none = refl
      go (some (a, v)) = h a v

  no_ticker : (v : World F) → (checked {F = F} {A = ℕ} none >>= λ k. pure (k + 1)) v ≡ none
  unfolding checked ◌>>=◌
  no_ticker v = refl

module _ {F : Type 0} ⦃fl : Float64 F⦄ (env : Env F) (cfg : Config) where
  -- a cycle, and then what is within the same devices
  then-Within :
      {A B : Type 0} (m : M F A) (f : A → B) (w w' : World F) (b : B)
      → (run_collection env cfg >>= λ logged. m >>= λ a. pure (f a)) w ≡ some (b, w')
      → ((a : A) (v : World F) → m v ≡ some (a, w') → Within cfg cfg.devices v w')
      → Within cfg cfg.devices w w'
  unfolding pure
  then-Within m f w w' b e rest =
      let (logged, v, ran, more) =
        >>=-eq-some (run_collection env cfg) (λ logged. m >>= λ a. pure (f a)) w w' b e in
      let (a, u, inner, last) = >>=-eq-some m (λ a. pure (f a)) v w' b more in
      let (p, q) = ended_inj _ _ _ _ last in
      Within-trans cfg cfg.devices w v w' (run_collection-Within env cfg w v logged ran)
        (rest a v (inner ∙ ap (λ x. some (a, x)) q))

  loop-Within :
      (events : List Event) (w w' : World F) (n : ℕ)
      → loop env cfg events w ≡ some (n, w')
      → Within cfg cfg.devices w w'
  unfolding loop pure
  loop-Within [] w w' n e =
      let (p, q) = ended_inj _ _ _ _ e in
      subst (Within cfg cfg.devices w) q (Within-refl cfg cfg.devices w)
  loop-Within (ctx_done ∷ events) w w' n e =
      let (p, q) = ended_inj _ _ _ _ e in
      subst (Within cfg cfg.devices w) q (Within-refl cfg cfg.devices w)
  loop-Within (ticked ∷ events) w w' n e =
      then-Within (loop env cfg events) (λ k. k + 1) w w' n e (λ k v. loop-Within events v w' k)

  ticker-Within :
      (b : Bool) (events : List Event) (n : ℕ) (w w' : World F)
      → (if b then loop env cfg events else checked none) w ≡ some (n, w')
      → Within cfg cfg.devices w w'
  unfolding checked
  ticker-Within true events n w w' e = loop-Within events w w' n e
  ticker-Within false events n w w' e = absurd cc

  -- However many cycles it runs, with the jobs of a cycle one after another, the goroutine of `Start` leaves
  -- the cache entries of all names that no configured device has, and only adds calls that a collection of a
  -- configured device may make: those with its labels, of a selected category, or of its uptime when the
  -- hardware category is selected.
  pub start-Within :
      (events : List Event) (w w' : World F) (n : ℕ)
      → start env cfg events w ≡ some (n, w')
      → Within cfg cfg.devices w w'
  unfolding start
  start-Within events w w' n e =
      then-Within
        (if is_positive (interval env.parse_duration cfg)
          then loop env cfg events
          else checked none)
        (λ k. k + 1) w w' n e
        (λ k v. ticker-Within (is_positive (interval env.parse_duration cfg)) events k v w')

  -- the run ends with `n`
  EndsWith : {A : Type 0} → M F A → A → Type 0
  EndsWith m a = (w : World F) → (u : World F) × (m w ≡ some (a, u))

  then-EndsWith :
      {A B : Type 0} (m : M F A) (f : A → B) (a : A)
      → IsCalm env
      → EndsWith m a
      → EndsWith (run_collection env cfg >>= λ logged. m >>= λ x. pure (f x)) (f a)
  unfolding EndsWith pure
  then-EndsWith m f a calm h w =
      let (logged, v, ran) = (run_collection-Returns env cfg calm).at w in
      let (u, inner) = h v in
      (
        u,
        >>=-step (run_collection env cfg) (λ logged. m >>= λ x. pure (f x)) w v logged ran
            ∙ >>=-step m (λ x. pure (f x)) v u a inner,
      )

  loop-EndsWith :
      IsCalm env → (events : List Event) → EndsWith (loop env cfg events) (ticks_before_done events)
  unfolding EndsWith loop ticks_before_done pure
  loop-EndsWith calm [] w = (w, refl)
  loop-EndsWith calm (ctx_done ∷ events) w = (w, refl)
  loop-EndsWith calm (ticked ∷ events) w =
      then-EndsWith (loop env cfg events) (λ k. k + 1) (ticks_before_done events) calm
        (loop-EndsWith calm events) w

  -- With a positive interval, and when no provider and no parser panics and none returns a number below zero
  -- for a counter, `Start` runs one cycle at once and one for each tick before the first cancellation, and
  -- no more. The jobs of a cycle run one after another.
  pub start_lem :
      IsCalm env
      → is_positive (interval env.parse_duration cfg) ≡ true
      → (events : List Event) (w : World F)
      → (w' : World F) × (start env cfg events w ≡ some (ticks_before_done events + 1, w'))
  unfolding start EndsWith
  start_lem calm positive events w =
      let (u, ran) =
        then-EndsWith (loop env cfg events) (λ k. k + 1) (ticks_before_done events) calm
          (loop-EndsWith calm events) w in
      (
        u,
        ap
              (λ b.
                (run_collection env cfg >>= λ logged.
                (if b then loop env cfg events else checked none) >>= λ k. pure (k + 1))
                  w)
              positive
            ∙ ran,
      )

  -- With an interval that is zero or negative, `Start` panics, whatever its first cycle does.
  pub start_panics :
      (events : List Event) (w : World F)
      → is_positive (interval env.parse_duration cfg) ≡ false
      → start env cfg events w ≡ none
  unfolding start
  start_panics events w e = >>=-eq-none (run_collection env cfg) _ w (λ logged v.
      ap (λ b. ((if b then loop env cfg events else checked none) >>= λ k. pure (k + 1)) v) e
      ∙ no_ticker v)
