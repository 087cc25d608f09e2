-- ===== src/Exception.antt =====
-- pgen/exception.h: the class `exception`. Where the other files throw, the result carries the text
-- given to the constructor; what that text becomes in the object is here.
use libpgen.Base.{ℕ, ◌++◌, ◌==◌, if◌then◌else◌}
use libpgen.Base.Text.{Text, codes, until_zero}

pub record Exception : Type 0 where
  pub str : Text

-- `errno` at the time, and the text that `strerror` has for it, are the platform's.
pub construct : (ℕ → Text) → ℕ → Text → Exception
construct strerror errno s = record { str = if errno == 0 then s else s ++ strerror errno }

-- `operator<<` of a value, of which an `ostringstream` makes the text `t`.
pub append : Text → Exception → Exception
append t e = record { str = e.str ++ (codes " " ++ t) }

-- `what`: the characters up to the first zero.
pub what : Exception → Text
what e = until_zero e.str
