-- ===== src/Prelude/Ordered.antt =====
-- Dictionaries with distinct keys, cut at the front: what `OrderedDict.popitem(last=False)` and
-- `move_to_end` leave of them.
use Prim.Native.Nat.{ℕ, zero, suc, ◌≤◌}
use Prim.Native.String.{String}
use mathlib.Core.Path.{◌≡◌, refl}
use mathlib.Core.Option.{none, some}
use mathlib.Core.List.{[], ◌∷◌, ◌++◌}
use native.Mathlib.Omega.{arith}
use text.Mathlib.Text.{◌==◌ as str_eq}
use text.Mathlib.TextEquality.{eq_iff}
use ai_compute_intelligence.Prelude.Tests.{if◌then◌else◌}
use ai_compute_intelligence.Prelude.Lists.{length, drop}
use ai_compute_intelligence.Prelude.Dict.{Dict, lookup, remove, lookup-append, lookup-remove}

module _ {ℓ} {V : Type ℓ} where
  -- no key twice
  abbrev pub Distinct : Dict V → Type ℓ
  Distinct [] = Unit
  Distinct ((k, _) ∷ m) = (lookup k m ≡ none) × Distinct m

  pub drop-append : (n : ℕ) (m r : Dict V) → n ≤ length m → drop n (m ++ r) ≡ drop n m ++ r
  drop-append zero m r h = refl
  drop-append (suc n) [] r h = absurd (omega arith)
  drop-append (suc n) (e ∷ m) r h = drop-append n m r (omega arith)

  pub lookup-drop_absent :
      (k : String) (n : ℕ) (m : Dict V) → lookup k m ≡ none → lookup k (drop n m) ≡ none
  unfolding lookup
  lookup-drop_absent k zero m h = h
  lookup-drop_absent k (suc n) [] h = refl
  lookup-drop_absent k (suc n) ((i, w) ∷ m) h = lookup-drop_absent k n m (ground arith)

  pub Distinct-drop : (n : ℕ) (m : Dict V) → Distinct m → Distinct (drop n m)
  Distinct-drop zero m d = d
  Distinct-drop (suc n) [] d = tt
  Distinct-drop (suc n) (e ∷ m) d = Distinct-drop n m d.1

  pub Distinct-remove : (k : String) (m : Dict V) → Distinct m → Distinct (remove k m)
  unfolding remove
  Distinct-remove k [] d = tt
  Distinct-remove k ((i, w) ∷ m) d = ground (arith, Distinct-remove k m d.1, lookup-remove k i m)

  pub Distinct-append :
      (k : String) (v : V) (m : Dict V)
      → lookup k m ≡ none
      → Distinct m
      → Distinct (m ++ (k, v) ∷ [])
  unfolding lookup
  Distinct-append k v [] h d = (refl, tt)
  Distinct-append k v ((i, w) ∷ m) h d = (
    ground (arith, d.0, lookup-append i m ((k, v) ∷ []), eq_iff k i, eq_iff i k),
    Distinct-append k v m (ground arith) d.1,
  )

  -- a key is where it was after its entry has been moved to the end
  pub lookup-move_to_end :
      (k j : String) (v : V) (m : Dict V)
      → lookup j (remove k m ++ (k, v) ∷ []) ≡ (if str_eq k j then some v else lookup j m)
  unfolding lookup
  lookup-move_to_end k j v m =
      ground (arith, lookup-append j (remove k m) ((k, v) ∷ []), lookup-remove k j m)
