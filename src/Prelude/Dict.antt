-- ===== src/Prelude/Dict.antt =====
-- Python's `dict` and `OrderedDict` with string keys: an association list in insertion order.
-- An assignment to a key that is there keeps its place, one to a new key appends.
use Prim.Native.Nat.{◌+◌, ◌≤◌}
use Prim.Native.String.{String}
use mathlib.Core.Path.{◌≡◌, refl}
use mathlib.Core.Bool.{Bool}
use mathlib.Core.Option.{Option, none, some}
use mathlib.Core.List.{List, [], ◌∷◌, ◌++◌}
use native.Mathlib.Omega.{arith}
use text.Mathlib.Text.{◌==◌ as str_eq}
use text.Mathlib.TextEquality.{eq_iff}
use text.Mathlib.TextPositions.{eq_refl}
use ai_compute_intelligence.Prelude.Tests.{if◌then◌else◌, is_some}
use ai_compute_intelligence.Prelude.Lists.{length}

abbrev pub Dict {ℓ} : Type ℓ → Type ℓ
Dict V = List (String × V)

module _ {ℓ} {V : Type ℓ} where
  -- `d.get(key)`
  unfoldable pub lookup : (key : String) (entries : Dict V) → Option V
  lookup key ((name, value) ∷ rest) = if str_eq name key then some value else lookup key rest
  lookup key [] = none

  abbrev pub contains : String → Dict V → Bool
  contains key entries = is_some (lookup key entries)

  -- `d[key] = value`
  unfoldable pub insert : (key : String) (value : V) (entries : Dict V) → Dict V
  insert key value ((name, old) ∷ rest) =
      let later = insert key value rest in
      if str_eq name key then (name, value) ∷ rest else (name, old) ∷ later
  insert key value [] = (key, value) ∷ []

  -- `del d[k]`, `d.pop(k, None)`
  unfoldable pub remove : String → Dict V → Dict V
  remove k [] = []
  remove k ((j, w) ∷ m) = let rest = remove k m in if str_eq j k then rest else (j, w) ∷ rest

  unfoldable pub get_or : String → V → Dict V → V
  get_or k d m = elim (lookup k m) [ none ↦ d | some v ↦ v ]

  pub lookup-insert :
      (key other : String) (value : V) (entries : Dict V)
      → lookup other (insert key value entries)
        ≡ (if str_eq key other then some value else lookup other entries)
  unfolding insert lookup
  lookup-insert key other value ((name, old) ∷ rest) = ground (
    arith,
    lookup-insert key other value rest,
    eq_iff name other,
    eq_iff name key,
    eq_iff key other,
  )
  lookup-insert key other value [] = refl

  pub lookup-remove :
      (k j : String) (m : Dict V)
      → lookup j (remove k m) ≡ (if str_eq k j then none else lookup j m)
  unfolding lookup remove
  lookup-remove k j [] = ground arith
  lookup-remove k j ((i, w) ∷ m) =
      ground (arith, eq_iff k j, eq_iff i k, eq_iff i j, lookup-remove k j m)

  pub lookup-append :
      (k : String) (m n : Dict V)
      → lookup k (m ++ n) ≡ (if contains k m then lookup k m else lookup k n)
  unfolding lookup
  lookup-append k [] n = refl
  lookup-append k ((i, w) ∷ m) n = ground (arith, lookup-append k m n)

  pub lookup-insert_self : (k : String) (v : V) (m : Dict V) → lookup k (insert k v m) ≡ some v
  lookup-insert_self k v m = simp (lookup-insert, eq_refl)

  pub length-insert :
      (k : String) (v : V) (m : Dict V)
      → length (insert k v m) ≡ (if contains k m then length m else length m + 1)
  unfolding lookup insert
  length-insert k v [] = omega arith
  length-insert k v ((i, w) ∷ m) = ground (arith, length-insert k v m)

  pub length-remove-le : (k : String) (m : Dict V) → length (remove k m) ≤ length m
  unfolding remove
  length-remove-le k [] = omega arith
  length-remove-le k ((i, w) ∷ m) = ground (arith, length-remove-le k m)

  pub remove_absent : (k : String) (m : Dict V) → lookup k m ≡ none → remove k m ≡ m
  unfolding lookup remove
  remove_absent k [] h = refl
  remove_absent k ((i, w) ∷ m) h = ground (arith, remove_absent k m)

  pub length-remove_present :
      (k : String) (v : V) (m : Dict V) → lookup k m ≡ some v → length (remove k m) + 1 ≤ length m
  unfolding lookup remove
  length-remove_present k v [] h = cc
  length-remove_present k v ((i, w) ∷ m) h =
      ground (arith, length-remove_present k v m, length-remove-le k m)
