-- ===== src/Prelude/Texts.antt =====
-- Texts as the code points that a regular expression walks over.
use Prim.Native.Nat.{ℕ}
use Prim.Native.Char.{code}
use Prim.Native.String.{String}
use mathlib.Core.Bool.{Bool, true, false, ◌&&◌}
use mathlib.Core.Path.{◌≡◌}
use mathlib.Core.Logic.{◌≢◌}
use native.Mathlib.Omega.{arith}
use mathlib.Core.List.{List, [], ◌∷◌}
use text.Mathlib.Text.{◌==◌}
use text.Mathlib.TextEquality.{eq_iff}
use jungle_backend_challenge.Prelude.Tests.{leb}

abbrev pub codes : String → List ℕ
codes String.[] = []
codes (String.◌∷◌ c s) = code c ∷ codes s

-- The truth value of a string in a condition: it is not empty.
abbrev pub truthy : String → Bool
truthy String.[] = false
truthy (String.◌∷◌ c s) = true

abbrev pub is_digit : ℕ → Bool
is_digit c = leb b'0' c && leb c b'9'

abbrev pub is_upper : ℕ → Bool
is_upper c = leb b'A' c && leb c b'Z'

pub eq_true : (s t : String) → s ≡ t → (s == t) ≡ true
eq_true s t h = (eq_iff s t).1 h

pub eq_of_true : (s t : String) → (s == t) ≡ true → s ≡ t
eq_of_true s t h = (eq_iff s t).0 h

pub false_of_ne : (s t : String) → s ≢ t → (s == t) ≡ false
false_of_ne s t h = ground (arith, eq_iff s t)
