-- ===== src/Common/Outcome.antt =====
-- A Go result of a value and an error.
use quantumbilling.Common.{Text}

-- The value, or the text of the error up to the error that it wraps.
pub data Outcome (A : Type 0) : Type 0 where
  done : A → Outcome A
  failed : Text → Outcome A
