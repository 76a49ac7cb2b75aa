-- ===== src/Scheduler/Fallback/Returns.antt =====
-- `collectDevice` comes to an end, and so does whatever is built from what comes to an end.
use gcisco_exporter.Base.{
  ◌≡◌, refl, ◌∙◌, Bool, true, false, Option, none, some, List, [], ◌∷◌, ◌⊎◌, inl, inr, String,
  if◌then◌else◌,
}
use gcisco_exporter.Float.{Float64}
use gcisco_exporter.Int.{ℤ}
use gcisco_exporter.Error.{Error, all_methods_failed}
use gcisco_exporter.Config.{Device, Credential, Config}
use gcisco_exporter.Scheduler.World.{Results, World, Env, M, ◌>>=◌, pure}
use gcisco_exporter.Scheduler.Steps.{>>=-step}
use gcisco_exporter.Scheduler.Device.{
  proceed, try_methods, with_credential, collect_device, find_credential,
}
use gcisco_exporter.Scheduler.Frame.{Frame-returns}
use gcisco_exporter.Scheduler.Frame.Calm.{IsCalm}
use gcisco_exporter.Scheduler.Frame.Attempt.{Frame-attempt}
use gcisco_exporter.Scheduler.Fallback.{succeed_lem, give_up_lem, reported_up, reported_down}

-- From every world the run ends without a panic.
pub record Returns {F A : Type 0} (m : M F A) : Type 0 where
  pub at : (w : World F) → (a : A) × (u : World F) × (m w ≡ some (a, u))

module _ {F : Type 0} where
  pub Returns-pure : {A : Type 0} (a : A) → Returns {F = F} (pure a)
  unfolding pure
  Returns-pure a = record { at = λ w. (a, w, refl) }

  pub Returns->>= :
      {A B : Type 0} {m : M F A} {f : A → M F B}
      → Returns m
      → ((a : A) → Returns (f a))
      → Returns (m >>= f)
  Returns->>= {m} {f} h k = record {
    at = λ w.
        let (a, u, ran) = h.at w in
        let (b, v, rest) = (k a).at u in (b, v, >>=-step m f w u a ran ∙ rest);
  }

  pub Returns-if :
      {A : Type 0} (b : Bool) {m n : M F A} → Returns m → Returns n → Returns (if b then m else n)
  Returns-if true h k = h
  Returns-if false h k = k

module _ {F : Type 0} ⦃fl : Float64 F⦄ (env : Env F) (cfg : Config) (d : Device)
    (calm : IsCalm env) where
  Returns-proceed :
      (method : String) {rest : M F (Option Error)} (o : Error ⊎ Results F)
      → Returns rest
      → Returns (proceed env cfg d method rest o)
  unfolding proceed
  Returns-proceed method (inl e) h = h
  Returns-proceed method (inr result) h = record {
    at = λ w. (none, reported_up env cfg d method result w, succeed_lem env cfg d method result w);
  }

  Returns-try_methods :
      (cred : Credential) (timeout : ℤ) (ms : List String)
      → Returns (try_methods env cfg d cred timeout ms)
  unfolding try_methods
  Returns-try_methods cred timeout [] = record {
    at =
        λ w. (some (all_methods_failed d.name), reported_down env cfg d w, give_up_lem env cfg d w);
  }
  Returns-try_methods cred timeout (m ∷ ms) =
      Returns->>= (record { at = Frame-returns (Frame-attempt env cfg d cred timeout m) calm })
        (λ o. Returns-proceed m o (Returns-try_methods cred timeout ms))

  Returns-with_credential : (o : Option Credential) → Returns (with_credential env cfg d o)
  unfolding with_credential
  Returns-with_credential none = Returns-pure _
  Returns-with_credential (some cred) = Returns-try_methods cred _ d.collection_methods

  -- When no provider and no parser panics, and none returns a number below zero for a counter, a collection
  -- comes to its end from every world.
  pub collect_device-Returns : Returns (collect_device env cfg d)
  unfolding collect_device
  collect_device-Returns =
      Returns-with_credential (find_credential d.credential_name cfg.credentials)
