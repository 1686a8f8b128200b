-- ===== src/Bus/Dedup.antt =====
-- core/event_bus.py: the deduplication of the in-memory bus.
use ai_compute_intelligence.Prelude.{
  ◌+◌, ◌≤◌, ◌<◌, ◌≡◌, refl, sym, subst, ap, ◌∙◌, arith, true, false, List, [], ◌∷◌, ◌++◌, String,
  mem, length, length-append, eq_refl, ltb, Bool-cases, inl, inr, if◌then◌else◌,
}
use ai_compute_intelligence.Prelude.Unique.{Once, mem-append_last, Once-append_last}
use ai_compute_intelligence.Bus.{IdempotencyStore, discard, pop_left, remember}

pub record IsTracked (s : IdempotencyStore) : Type 0 where
  pub same : s.seen_keys ≡ s.order
  pub once : Once s.order
  pub bounded : length s.order ≤ s.max_keys

discard_absent : (k : String) (xs : List String) → mem k xs ≡ false → discard k xs ≡ xs
unfolding mem discard
discard_absent k [] h = refl
discard_absent k (x ∷ xs) h = ground (arith, discard_absent k xs)

discard_first : (x : String) (xs : List String) → mem x xs ≡ false → discard x (x ∷ xs) ≡ xs
unfolding discard
discard_first x xs h = ground (arith, eq_refl x, discard_absent x xs)

-- the store as `seen_or_add` leaves it, from one list for the set and the order
IsTracked-pop :
    (order : List String) (s : IdempotencyStore)
    → s.seen_keys ≡ order
    → s.order ≡ order
    → Once order
    → length order ≤ s.max_keys + 1
    → IsTracked (if ltb s.max_keys (length order) then pop_left order s else s)
unfolding pop_left
IsTracked-pop [] s e f o b = ground arith
IsTracked-pop (x ∷ order) s e f o b =
    let first : discard x s.seen_keys ≡ order = ap (discard x) e ∙ discard_first x order o.0 in
    let whole : Once s.order = subst Once (sym f) o in
    let same : s.seen_keys ≡ s.order = e ∙ sym f in
    elim (Bool-cases (ltb s.max_keys (length (x ∷ order)))) [
      | inl over ↦ rw over (record { same = first; once = o.1; bounded = ground arith })
      | inr under ↦ rw under (record { same = same; once = whole; bounded = ground arith })
    ]

pub remember-IsTracked :
    (k : String) (s : IdempotencyStore)
    → IsTracked s
    → mem k s.seen_keys ≡ false
    → IsTracked (remember k s)
unfolding remember
remember-IsTracked k s t h =
    let order = s.order ++ k ∷ [] in
    IsTracked-pop order (record s { seen_keys = s.seen_keys ++ k ∷ []; order = order })
      (ap (λ keys. keys ++ k ∷ []) t.same) refl
      (Once-append_last k s.order (ap (mem k) (sym t.same) ∙ h) t.once)
      (omega (arith, length-append s.order (k ∷ []), t.bounded))

mem-last : (k : String) (xs : List String) → mem k (xs ++ k ∷ []) ≡ true
mem-last k xs = ground (arith, mem-append_last k k xs, eq_refl k)

known-pop :
    (k : String) (xs : List String) (s : IdempotencyStore)
    → s.seen_keys ≡ xs ++ k ∷ []
    → Once (xs ++ k ∷ [])
    → 0 < s.max_keys
    → mem k
        (if ltb s.max_keys (length (xs ++ k ∷ [])) then pop_left (xs ++ k ∷ []) s else s).seen_keys
      ≡ true
unfolding pop_left
known-pop k [] s e o h = ground (arith, e, mem-last k [])
known-pop k (x ∷ xs) s e o h =
    let order = xs ++ k ∷ [] in
    let first : discard x s.seen_keys ≡ order = ap (discard x) e ∙ discard_first x order o.0 in
    elim (Bool-cases (ltb s.max_keys (length (x ∷ order)))) [
      | inl over ↦ rw over (ap (mem k) first ∙ mem-last k xs)
      | inr under ↦ rw under (ap (mem k) e ∙ mem-last k (x ∷ xs))
    ]

-- A key is known right after it has been remembered.
pub remember-known :
    (k : String) (s : IdempotencyStore)
    → IsTracked s
    → mem k s.seen_keys ≡ false
    → 0 < s.max_keys
    → mem k (remember k s).seen_keys ≡ true
unfolding remember
remember-known k s t h l =
    let order = s.order ++ k ∷ [] in
    known-pop k s.order (record s { seen_keys = s.seen_keys ++ k ∷ []; order = order })
      (ap (λ keys. keys ++ k ∷ []) t.same)
      (Once-append_last k s.order (ap (mem k) (sym t.same) ∙ h) t.once) l
