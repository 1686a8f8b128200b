-- ===== src/Prelude/Every.antt =====
-- Predicates on all the elements of a list or of a dictionary, and on what an `Option` holds.
use Prim.Native.Nat.{ℕ, zero, suc}
use Prim.Native.String.{String}
use mathlib.Core.Path.{◌≡◌, refl, subst}
use mathlib.Core.Bool.{Bool, true}
use mathlib.Core.Option.{Option, none, some}
use mathlib.Core.Logic.{inl, inr}
use mathlib.Core.List.{List, [], ◌∷◌, ◌++◌, map}
use native.Mathlib.Omega.{arith}
use text.Mathlib.Text.{◌==◌ as str_eq}
use text.Mathlib.TextEquality.{eq_iff}
use text.Mathlib.TextPositions.{eq_refl}
use ai_compute_intelligence.Prelude.Tests.{Bool-cases}
use ai_compute_intelligence.Prelude.Texts.{mem}
use ai_compute_intelligence.Prelude.Lists.{drop, keep}
use ai_compute_intelligence.Prelude.Dict.{Dict, lookup, insert}

mem-cons : (s t : String) (xs : List String) → mem s xs ≡ true → mem s (t ∷ xs) ≡ true
unfolding mem
mem-cons s t xs h = ground arith

module _ {ℓ} {A : Type ℓ} where
  abbrev pub Every : (A → Type 0) → List A → Type 0
  Every P [] = Unit
  Every P (x ∷ xs) = P x × Every P xs

  -- what holds of the value, if there is one
  abbrev pub Ensures : (A → Type 0) → Option A → Type 0
  Ensures P none = Unit
  Ensures P (some x) = P x

  module _ (P : A → Type 0) where
    pub Every-append_last : (xs : List A) (y : A) → Every P xs → P y → Every P (xs ++ y ∷ [])
    Every-append_last [] y a p = (p, tt)
    Every-append_last (x ∷ xs) y a p = (a.0, Every-append_last xs y a.1 p)

    pub Every-append : (xs ys : List A) → Every P xs → Every P ys → Every P (xs ++ ys)
    Every-append [] ys a b = b
    Every-append (x ∷ xs) ys a b = (a.0, Every-append xs ys a.1 b)

    pub Every-keep : (p : A → Bool) (xs : List A) → Every P xs → Every P (keep p xs)
    Every-keep p [] a = tt
    Every-keep p (x ∷ xs) a = elim (Bool-cases (p x)) [
      | inl kept ↦ rw kept (a.0, Every-keep p xs a.1)
      | inr out ↦ rw out (Every-keep p xs a.1)
    ]

    pub Every-drop : (n : ℕ) (xs : List A) → Every P xs → Every P (drop n xs)
    Every-drop zero xs a = a
    Every-drop (suc n) [] a = tt
    Every-drop (suc n) (x ∷ xs) a = Every-drop n xs a.1

  pub Every-weaken :
      (P Q : A → Type 0) → ((x : A) → P x → Q x) → (xs : List A) → Every P xs → Every Q xs
  Every-weaken P Q f [] a = tt
  Every-weaken P Q f (x ∷ xs) a = (f x a.0, Every-weaken P Q f xs a.1)

  -- each element is where its own list says
  pub Every-mem : (f : A → String) (xs : List A) → Every (λ x. mem (f x) (map f xs) ≡ true) xs
  unfolding mem
  Every-mem f [] = tt
  Every-mem f (x ∷ xs) = (
    rw (eq_refl (f x), mem) refl,
    Every-weaken (λ y. mem (f y) (map f xs) ≡ true) (λ y. mem (f y) (map f (x ∷ xs)) ≡ true)
        (λ y h. mem-cons (f y) (f x) (map f xs) h) xs (Every-mem f xs),
  )

module _ {ℓ} {A : Type ℓ} where
  pub mem-Every :
      (Q : String → Type 0) (f : A → String) (t : String) (xs : List A)
      → Every (λ x. Q (f x)) xs
      → mem t (map f xs) ≡ true
      → Q t
  unfolding mem
  mem-Every Q f t [] a h = absurd (ground arith)
  mem-Every Q f t (x ∷ xs) a h = elim (Bool-cases (str_eq (f x) t)) [
    | inl same ↦ subst Q ((eq_iff (f x) t).0 same) a.0
    | inr other ↦ mem-Every Q f t xs a.1 (ground arith)
  ]

module _ {ℓ k} {A : Type ℓ} {B : Type k} where
  pub Every-map :
      (P : B → Type 0) (f : A → B) (xs : List A) → Every (λ x. P (f x)) xs → Every P (map f xs)
  Every-map P f [] a = tt
  Every-map P f (x ∷ xs) a = (a.0, Every-map P f xs a.1)

module _ {ℓ} {V : Type ℓ} where
  pub Every-insert_key :
      (P : String → Type 0) (k : String) (v : V) (m : Dict V)
      → P k
      → Every (λ e. P e.0) m
      → Every (λ e. P e.0) (insert k v m)
  unfolding insert
  Every-insert_key P k v [] p a = (p, tt)
  Every-insert_key P k v ((j, w) ∷ m) p a = elim (Bool-cases (str_eq j k)) [
    | inl same ↦ rw (same, insert) (a.0, a.1)
    | inr other ↦ rw (other, insert) (a.0, Every-insert_key P k v m p a.1)
  ]

  pub Every-insert_value :
      (P : V → Type 0) (k : String) (v : V) (m : Dict V)
      → P v
      → Every (λ e. P e.1) m
      → Every (λ e. P e.1) (insert k v m)
  unfolding insert
  Every-insert_value P k v [] p a = (p, tt)
  Every-insert_value P k v ((j, w) ∷ m) p a = elim (Bool-cases (str_eq j k)) [
    | inl same ↦ rw (same, insert) (p, a.1)
    | inr other ↦ rw (other, insert) (a.0, Every-insert_value P k v m p a.1)
  ]

  pub lookup-Ensures :
      (P : V → Type 0) (k : String) (m : Dict V) → Every (λ e. P e.1) m → Ensures P (lookup k m)
  unfolding lookup
  lookup-Ensures P k [] a = tt
  lookup-Ensures P k ((j, w) ∷ m) a = elim (Bool-cases (str_eq j k)) [
    | inl same ↦ rw (same, lookup) a.0
    | inr other ↦ rw (other, lookup) (lookup-Ensures P k m a.1)
  ]
