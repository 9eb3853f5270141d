-- ===== src/Base/Text.antt =====
-- The test of two texts.
use Prim.Native.String.{String}
use mathlib.Core.Path.{◌≡◌}
use mathlib.Core.Logic.{◌≢◌}
use mathlib.Core.Bool.{true, false}
use native.Mathlib.Omega.{arith}
use text.Mathlib.Text.{◌==◌}
use text.Mathlib.TextEquality.{eq_iff}

pub ne_of_test : (a b : String) → (a == b) ≡ false → a ≢ b
ne_of_test a b h = ground (arith, eq_iff a b)

pub test_of_ne : (a b : String) → a ≢ b → (a == b) ≡ false
test_of_ne a b h = ground (arith, eq_iff a b)

pub of_test : (a b : String) → (a == b) ≡ true → a ≡ b
of_test a b h = ground (arith, eq_iff a b)

pub test_ne : (a b : String) → a ≢ b → (a == b) ≡ false
test_ne a b h = ground (arith, eq_iff a b)
