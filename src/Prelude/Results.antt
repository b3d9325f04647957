-- ===== src/Prelude/Results.antt =====
-- Go's `(T, error)` as a value or the error's text, and `error` alone as an optional text.
use Prim.Native.String.{String}
use mathlib.Core.Bool.{Bool, true, false}
use mathlib.Core.Option.{Option, none, some}

pub data Result {ℓ} (A : Type ℓ) : Type ℓ where
  ok : A → Result A
  err : String → Result A

-- `nil` is `none`.
abbrev pub Error : Type 0
Error = Option String

-- `return value, err`
abbrev pub with_error {ℓ} : {A : Type ℓ} → A → Error → Result A
with_error a none = ok a
with_error a (some e) = err e

abbrev pub is_ok {ℓ} : {A : Type ℓ} → Result A → Bool
is_ok (ok _) = true
is_ok (err _) = false
