-- ===== src/Prelude/Texts.antt =====
-- Texts: concatenation of the parts of an f-string, and membership in a list of texts.
use Prim.Native.String.{String}
use Prim.Native.String
use mathlib.Core.Bool.{Bool, true, false}
use mathlib.Core.List.{List, [], ◌∷◌}
use text.Mathlib.Text.{◌==◌ as str_eq}
use ai_compute_intelligence.Prelude.Tests.{if◌then◌else◌}

abbrev pub concat : List String → String
concat [] = ""
concat (s ∷ parts) = String.◌++◌ s (concat parts)

-- `s in parts`
unfoldable pub mem : String → List String → Bool
mem s [] = false
mem s (t ∷ parts) = let rest = mem s parts in if str_eq t s then true else rest

-- whether a text is true as a condition
abbrev pub is_nonempty : String → Bool
is_nonempty s = if str_eq s "" then false else true

abbrev pub is_nonempty_list {ℓ} : {A : Type ℓ} → List A → Bool
is_nonempty_list [] = false
is_nonempty_list (_ ∷ _) = true

-- `a or b`
abbrev pub text_or : String → String → String
text_or a b = if is_nonempty a then a else b
