-- ===== src/Base/Texts.antt =====
-- Texts, and text columns of a table that may be NULL.
use Prim.Native.String.{String}
use mathlib.Core.Path.{◌≡◌}
use mathlib.Core.Bool.{Bool, true, false, not}
use mathlib.Core.Option.{Option, none, some}
use native.Mathlib.Omega.{arith}
use text.Mathlib.Text.{◌==◌}
pub use text.Mathlib.Text.{◌==◌ as str_eq}
pub use text.Mathlib.TextEquality.{eq_iff}
pub use text.Mathlib.TextPositions.{eq_refl}

-- `column = text` in SQL, and `value == text` in Python: NULL and None equal no text.
abbrev pub col_is : Option String → String → Bool
col_is none t = false
col_is (some s) t = s == t

-- `bool(value)` of a text that may be None.
abbrev pub truthy : Option String → Bool
truthy none = false
truthy (some s) = not (s == "")

abbrev pub is_none {ℓ} : {A : Type ℓ} → Option A → Bool
is_none none = true
is_none (some a) = false

abbrev pub is_some {ℓ} : {A : Type ℓ} → Option A → Bool
is_some none = false
is_some (some a) = true

pub col_is_eq : (c : Option String) (t : String) → col_is c t ≡ true → c ≡ some t
col_is_eq none t h = ground arith
col_is_eq (some s) t h = ground (arith, eq_iff s t)

pub col_is_self : (t : String) → col_is (some t) t ≡ true
col_is_self t = eq_refl t
