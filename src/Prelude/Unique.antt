-- ===== src/Prelude/Unique.antt =====
-- Lists of texts with no text twice.
use mathlib.Core.Path.{◌≡◌, refl}
use mathlib.Core.Bool.{true, false}
use mathlib.Core.List.{List, [], ◌∷◌, ◌++◌}
use Prim.Native.String.{String}
use native.Mathlib.Omega.{arith}
use text.Mathlib.Text.{◌==◌ as str_eq}
use text.Mathlib.TextEquality.{eq_iff}
use ai_compute_intelligence.Prelude.Tests.{if◌then◌else◌}
use ai_compute_intelligence.Prelude.Texts.{mem}

abbrev pub Once : List String → Type 0
Once [] = Unit
Once (x ∷ xs) = (mem x xs ≡ false) × Once xs

pub mem-append_last :
    (x k : String) (xs : List String)
    → mem x (xs ++ k ∷ []) ≡ (if mem x xs then true else str_eq k x)
unfolding mem
mem-append_last x k [] = ground arith
mem-append_last x k (y ∷ ys) = ground (arith, mem-append_last x k ys)

pub Once-append_last :
    (k : String) (xs : List String) → mem k xs ≡ false → Once xs → Once (xs ++ k ∷ [])
unfolding mem
Once-append_last k [] h o = (refl, tt)
Once-append_last k (x ∷ xs) h o =
    ground (arith, mem-append_last x k xs, Once-append_last k xs, o, eq_iff x k, eq_iff k x)
