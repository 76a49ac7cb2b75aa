-- ===== src/Tests/Counted.antt =====
-- Whole numbers are not below zero, so that no counter refuses one.
use gcisco_exporter.Base.{ℕ, ◌≡◌, true, List, [], ◌∷◌, arith, refl}
use gcisco_exporter.Float.{whole}
use gcisco_exporter.Error.{Answer, panics, returns}
use gcisco_exporter.Metrics.{Op, set, add, Call, accepts, are_accepted}
use gcisco_exporter.Scheduler.World.{Env}
use gcisco_exporter.Scheduler.Frame.Calm.{Accepted, CountsAreAccepted}

accepts_whole : (op : Op ℕ) → accepts op ≡ true
unfolding accepts
accepts_whole (set v) = refl
accepts_whole (add v) = ground arith

pub accepted_whole : (cs : List (Call ℕ)) → are_accepted cs ≡ true
unfolding are_accepted
accepted_whole [] = refl
accepted_whole (c ∷ cs) = rw (accepts_whole c.op) (accepted_whole cs)

answers_lem : {A : Type 0} (calls : A → List (Call ℕ)) (r : Answer A) → Accepted calls r
answers_lem calls panics = tt
answers_lem calls (returns a e) = accepted_whole (calls a)

pub whole-CountsAreAccepted : (env : Env ℕ) → CountsAreAccepted env
whole-CountsAreAccepted env = record {
  json_accepted = λ t d. answers_lem _ _;
  stp_accepted = λ t d. answers_lem _ _;
  mac_accepted = λ t d. answers_lem _ _;
  restconf_accepted = λ t d c. answers_lem _ _;
  netconf_accepted = λ t d c. answers_lem _ _;
  nxos_accepted = λ t d c out ifaces e p. accepted_whole _;
  iosxe_accepted = λ t d c out e. accepted_whole _;
  ios_accepted = λ t d c out e. accepted_whole _;
}
