-- ===== src/Error.antt =====
-- Go errors: a text from outside, an error under a text (`fmt.Errorf("…: %w", …, err)`), and the
-- three errors that the scheduler makes itself.
use gcisco_exporter.Base.{String, Option}

pub data Error : Type 0 where
  message : String → Error
  wrapped : String → Error → Error
  credential_not_found : String → String → Error
  unknown_method : String → Error
  all_methods_failed : String → Error

-- What a call of a provider does: it stops the program by a run-time panic, or returns a value
-- together with an error that may be nil.
pub data Answer (A : Type 0) : Type 0 where
  panics : Answer A
  returns : A → Option Error → Answer A
