-- ===== src/Common/Texts.antt =====
-- Comparison of optional texts.
use Prim.Native.String.{String}
use mathlib.Core.Path.{◌≡◌, refl}
use mathlib.Core.Logic.{◌↔◌}
use mathlib.Core.Bool.{Bool, true, false}
use mathlib.Core.Option.{Option, none, some}
use native.Mathlib.Omega.{arith}
use text.Mathlib.Text.{◌==◌}
use text.Mathlib.TextEquality.{eq_iff}

-- `a === b` on `string | undefined`.
abbrev pub same_text : Option String → Option String → Bool
same_text none none = true
same_text (some s) (some t) = s == t
same_text _ _ = false

pub same_text_iff : (a b : Option String) → (same_text a b ≡ true) ↔ (a ≡ b)
same_text_iff none none = (λ _. refl, λ _. refl)
same_text_iff none (some t) = (λ h. cc, λ h. cc)
same_text_iff (some s) none = (λ h. cc, λ h. cc)
same_text_iff (some s) (some t) = ground (arith, eq_iff s t)
