-- ===== src/Bus/Recent.antt =====
-- core/event_bus.py: how long a key of the deduplication is remembered in memory.
use ai_compute_intelligence.Prelude.{
  ℕ, suc, ◌≤◌, ◌<◌, ◌≡◌, refl, sym, ap, subst, ◌∙◌, arith, Bool, true, false, not, ◌&&◌,
  if◌then◌else◌, List, [], ◌∷◌, ◌++◌, String, mem, length, length-append, append_assoc, eq_refl,
  ltb, Bool-cases, inl, inr,
}
use ai_compute_intelligence.Bus.{IdempotencyStore, pop_left, remember}
use ai_compute_intelligence.Bus.Dedup.{IsTracked, remember-IsTracked}

-- A key that at most `n` others follow.
abbrev pub Recent : ℕ → String → List String → Type 0
Recent n k order =
    (older : List String) × (newer : List String) × (order ≡ older ++ k ∷ newer)
    × (length newer ≤ n)

Recent-pop :
    (k : String) (n : ℕ) (older newer : List String) (s : IdempotencyStore)
    → s.order ≡ older ++ k ∷ newer
    → length newer ≤ n
    → n < s.max_keys
    → Recent n k
        (if ltb s.max_keys (length (older ++ k ∷ newer))
          then pop_left (older ++ k ∷ newer) s
          else s).order
unfolding pop_left
Recent-pop k n [] newer s e h l =
    let room : ltb s.max_keys (suc (length newer)) ≡ false = ground arith in
    rw room ([], newer, e, h)
Recent-pop k n (x ∷ older) newer s e h l =
    elim (Bool-cases (ltb s.max_keys (length (x ∷ older ++ k ∷ newer)))) [
      | inl over ↦ rw over (older, newer, refl, h)
      | inr under ↦ rw under (x ∷ older, newer, e, h)
    ]

-- what a publication does to the keys
abbrev pub learned : Bool → String → IdempotencyStore → IdempotencyStore
learned fresh j s = if fresh && not (mem j s.seen_keys) then remember j s else s

pub max_keys-learned :
    (fresh : Bool) (j : String) (s : IdempotencyStore) → (learned fresh j s).max_keys ≡ s.max_keys
unfolding remember pop_left
max_keys-learned fresh j s = ground arith

mem_middle : (k : String) (xs ys : List String) → mem k (xs ++ k ∷ ys) ≡ true
unfolding mem
mem_middle k [] ys = ground (arith, eq_refl k)
mem_middle k (x ∷ xs) ys = ground (arith, mem_middle k xs ys)

-- The key is known, and at most `n` keys came after it.
pub record Keeps (k : String) (n : ℕ) (s : IdempotencyStore) : Type 0 where
  pub tracked : IsTracked s
  pub recent : Recent n k s.order

pub Keeps-mem : (k : String) (n : ℕ) (s : IdempotencyStore) → Keeps k n s → mem k s.seen_keys ≡ true
Keeps-mem k n s v =
    let (older, newer, e, h) = v.recent in
    ap (mem k) (v.tracked.same ∙ e) ∙ mem_middle k older newer

pub Keeps-first :
    (k : String) (s : IdempotencyStore)
    → IsTracked s
    → mem k s.seen_keys ≡ false
    → 0 < s.max_keys
    → Keeps k 0 (remember k s)
unfolding remember
Keeps-first k s t new l = record {
  tracked = remember-IsTracked k s t new;
  recent =
      Recent-pop k 0 s.order []
        (record s { seen_keys = s.seen_keys ++ k ∷ []; order = s.order ++ k ∷ [] }) refl
        (omega arith) l;
}

Recent-remember :
    (k j : String) (n : ℕ) (s : IdempotencyStore)
    → Recent n k s.order
    → suc n < s.max_keys
    → Recent (suc n) k (remember j s).order
unfolding remember
Recent-remember k j n s (older, newer, e, h) l =
    let split : s.order ++ j ∷ [] ≡ older ++ k ∷ (newer ++ j ∷ []) =
      ap (λ xs. xs ++ j ∷ []) e ∙ append_assoc older (k ∷ newer) (j ∷ []) in
    subst
      (λ xs.
        Recent (suc n) k
          (if ltb s.max_keys (length xs)
            then pop_left xs
                (record s { seen_keys = s.seen_keys ++ j ∷ []; order = s.order ++ j ∷ [] })
            else record s { seen_keys = s.seen_keys ++ j ∷ []; order = s.order ++ j ∷ [] }).order)
      (sym split)
      (Recent-pop k (suc n) older (newer ++ j ∷ [])
        (record s { seen_keys = s.seen_keys ++ j ∷ []; order = s.order ++ j ∷ [] }) split
        (omega (arith, length-append newer (j ∷ []), h)) l)

pub Keeps-learned :
    (k : String) (n : ℕ) (fresh : Bool) (j : String) (s : IdempotencyStore)
    → Keeps k n s
    → suc n < s.max_keys
    → Keeps k (suc n) (learned fresh j s)
Keeps-learned k n fresh j s v l =
    let (older, newer, e, h) = v.recent in
    let same : Keeps k (suc n) s = record {
      tracked = v.tracked;
      recent = (older, newer, e, omega (arith, h));
    } in
    elim (Bool-cases fresh) [
      | inr bad ↦ rw bad same
      | inl good ↦ elim (Bool-cases (mem j s.seen_keys)) [
        | inl seen ↦ rw (good, seen) same
        | inr new ↦
            rw (good, new)
              (record {
                tracked = remember-IsTracked j s v.tracked new;
                recent = Recent-remember k j n s v.recent l;
              })
      ]
    ]
