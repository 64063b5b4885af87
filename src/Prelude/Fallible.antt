-- ===== src/Prelude/Fallible.antt =====
-- What a Go function that returns a value and an error gives.
use Prim.Native.String.{String}

-- A value or the text of an error.
pub data Result (A : Type 0) : Type 0 where
  failed : String → Result A
  got : A → Result A
