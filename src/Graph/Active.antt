-- ===== src/Graph/Active.antt =====
-- graph/store.py: the dictionary of active edges, whose keys are pairs of nodes with an edge type.
use ai_compute_intelligence.Prelude.{
  ℕ, ◌≡◌, refl, arith, true, if◌then◌else◌, [], ◌∷◌, none, some, eq_iff, eq_refl,
}
use ai_compute_intelligence.Graph.{
  EdgeKey, ActiveIndex, edge_type_value, same_key, active_get, active_set, active_pop,
}

pub same_key_refl : (k : EdgeKey) → same_key k k ≡ true
unfolding same_key
same_key_refl (a, b, t) = ground (arith, eq_refl a, eq_refl b, eq_refl (edge_type_value t))

-- Keys that are the same fit the same third key.
pub same_key_left : (h j k : EdgeKey) → same_key h j ≡ true → same_key h k ≡ same_key j k
unfolding same_key
same_key_left (a, b, t) (a', b', t') (c, d, u) e =
    ground (arith, eq_iff a a', eq_iff b b', eq_iff (edge_type_value t) (edge_type_value t'))

pub same_key_right : (h j k : EdgeKey) → same_key h j ≡ true → same_key k h ≡ same_key k j
unfolding same_key
same_key_right (a, b, t) (a', b', t') (c, d, u) e =
    ground (arith, eq_iff a a', eq_iff b b', eq_iff (edge_type_value t) (edge_type_value t'))

same_key_join : (h j k : EdgeKey) → same_key h k ≡ true → same_key j k ≡ true → same_key h j ≡ true
unfolding same_key
same_key_join (a, b, t) (a', b', t') (c, d, u) e f = ground (
  arith,
  eq_iff a c,
  eq_iff b d,
  eq_iff (edge_type_value t) (edge_type_value u),
  eq_iff a' c,
  eq_iff b' d,
  eq_iff (edge_type_value t') (edge_type_value u),
  eq_iff a a',
  eq_iff b b',
  eq_iff (edge_type_value t) (edge_type_value t'),
)

pub active_get-same :
    (a b : EdgeKey) (m : ActiveIndex) → same_key a b ≡ true → active_get a m ≡ active_get b m
unfolding active_get
active_get-same a b [] e = refl
active_get-same a b ((h, i) ∷ m) e = ground (arith, active_get-same a b m, same_key_right a b h e)

pub active_get-active_set :
    (j k : EdgeKey) (i : ℕ) (m : ActiveIndex)
    → active_get k (active_set j i m) ≡ (if same_key j k then some i else active_get k m)
unfolding active_get active_set
active_get-active_set j k i [] = refl
active_get-active_set j k i ((h, old) ∷ m) =
    ground (arith, active_get-active_set j k i m, same_key_left h j k, same_key_join h j k)

pub active_get-active_pop :
    (j k : EdgeKey) (m : ActiveIndex)
    → active_get k (active_pop j m) ≡ (if same_key j k then none else active_get k m)
unfolding active_get active_pop
active_get-active_pop j k [] = ground arith
active_get-active_pop j k ((h, old) ∷ m) =
    ground (arith, active_get-active_pop j k m, same_key_left h j k, same_key_join h j k)
