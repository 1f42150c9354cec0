-- ===== src/Store/Table.antt =====
-- The entries under one key prefix of the store, in key order: what `put`, `get`, `Delete` and
-- `listPrefix` of internal/store/store.go do to them.
use distributed_container_or.Base.{
  ◌≤◌, ◌<◌, ◌≡◌, ◌≢◌, refl, String, Bool, true, false, not, List, [], ◌∷◌, Option, none, some,
  arith, inl, inr, Elem, Bool-cases, str_eq, str_lt, if◌then◌else◌, eq_iff, count, keep, any,
}

module _ {ℓ} {V : Type ℓ} where
  unfoldable pub lookup : String → List (String × V) → Option V
  lookup k [] = none
  lookup k ((j, v) ∷ t) = if str_eq j k then some v else lookup k t

  unfoldable pub replace : String → V → List (String × V) → List (String × V)
  replace k v [] = []
  replace k v ((j, w) ∷ t) = (if str_eq j k then (k, v) else (j, w)) ∷ replace k v t

  unfoldable pub place : String → V → List (String × V) → List (String × V)
  place k v [] = (k, v) ∷ []
  place k v ((j, w) ∷ t) = if str_lt k j then (k, v) ∷ (j, w) ∷ t else (j, w) ∷ place k v t

  unfoldable pub has_key : String → List (String × V) → Bool
  has_key k t = any (λ e. str_eq e.0 k) t

  -- `txn.Set`: the value replaces the key's old one, or gets its place in the order of keys.
  unfoldable pub insert : String → V → List (String × V) → List (String × V)
  unfolding replace place has_key
  insert k v t = if has_key k t then replace k v t else place k v t

  -- `txn.Delete`.
  unfoldable pub erase : String → List (String × V) → List (String × V)
  erase k t = keep (λ e. not (str_eq e.0 k)) t

  -- What `listPrefix` returns.
  unfoldable pub values : List (String × V) → List V
  values [] = []
  values ((k, v) ∷ t) = v ∷ values t

  pub lookup-Elem :
      (k : String) (v : V) (t : List (String × V)) → lookup k t ≡ some v → Elem v (values t)
  unfolding lookup values
  lookup-Elem k v [] e = cc e
  lookup-Elem k v ((j, w) ∷ t) e = elim (Bool-cases (str_eq j k)) [
    | inl here ↦ inl (ground (arith, rw here at e))
    | inr later ↦ inr (lookup-Elem k v t (rw later at e))
  ]

  pub lookup-erase :
      (k j : String) (t : List (String × V))
      → lookup j (erase k t) ≡ (if str_eq k j then none else lookup j t)
  unfolding lookup erase
  lookup-erase k j [] = ground arith
  lookup-erase k j ((i, w) ∷ t) =
      ground (arith, eq_iff k j, eq_iff i k, eq_iff i j, lookup-erase k j t)

  lookup-place :
      (k j : String) (v : V) (t : List (String × V))
      → lookup j (place k v t) ≡ (
          if str_eq k j
          then (if has_key k t then lookup j (place k v t) else some v)
          else lookup j t)
  unfolding lookup place has_key
  lookup-place k j v [] = ground arith
  lookup-place k j v ((i, w) ∷ t) =
      ground (arith, eq_iff k j, eq_iff i k, eq_iff i j, lookup-place k j v t)

  lookup-replace :
      (k j : String) (v : V) (t : List (String × V))
      → lookup j (replace k v t)
        ≡ (if str_eq k j then (if has_key k t then some v else none) else lookup j t)
  unfolding lookup replace has_key
  lookup-replace k j v [] = ground arith
  lookup-replace k j v ((i, w) ∷ t) =
      ground (arith, eq_iff k j, eq_iff i k, eq_iff i j, lookup-replace k j v t)

  pub lookup-insert :
      (k j : String) (v : V) (t : List (String × V))
      → lookup j (insert k v t) ≡ (if str_eq k j then some v else lookup j t)
  unfolding insert
  lookup-insert k j v t = ground (arith, lookup-place k j v t, lookup-replace k j v t)

  pub lookup-insert_self :
      (k : String) (v : V) (t : List (String × V)) → lookup k (insert k v t) ≡ some v
  lookup-insert_self k v t = ground (arith, lookup-insert k k v t, eq_iff k k)

  pub lookup-insert_ne :
      (k j : String) (v : V) (t : List (String × V)) → k ≢ j → lookup j (insert k v t) ≡ lookup j t
  lookup-insert_ne k j v t h = ground (arith, lookup-insert k j v t, eq_iff k j)

  -- No key stands twice.
  abbrev pub IsKeyed : List (String × V) → Type 0
  IsKeyed t = (k : String) → count (λ e. str_eq e.0 k) t ≤ 1

  key_count-insert :
      (k j : String) (v : V) (t : List (String × V))
      → count (λ e. str_eq e.0 j) (replace k v t) ≡ count (λ e. str_eq e.0 j) t
  unfolding replace
  key_count-insert k j v [] = refl
  key_count-insert k j v ((i, w) ∷ t) =
      ground (arith, eq_iff k j, eq_iff i k, eq_iff i j, key_count-insert k j v t)

  pub count-place :
      (p : String × V → Bool) (k : String) (v : V) (t : List (String × V))
      → count p (place k v t) ≡ count p ((k, v) ∷ t)
  unfolding place
  count-place p k v [] = refl
  count-place p k v ((i, w) ∷ t) = ground (arith, count-place p k v t)

  pub count-has_key :
      (k : String) (t : List (String × V))
      → (has_key k t ≡ false → count (λ e. str_eq e.0 k) t ≡ 0)
        × (has_key k t ≡ true → 0 < count (λ e. str_eq e.0 k) t)
  unfolding has_key
  count-has_key k [] = ground arith
  count-has_key k ((i, w) ∷ t) = ground (arith, count-has_key k t)

  pub insert-IsKeyed :
      (k : String) (v : V) (t : List (String × V)) → IsKeyed t → IsKeyed (insert k v t)
  unfolding insert
  insert-IsKeyed k v t h j = ground (
    arith,
    h j,
    key_count-insert k j v t,
    count-place (λ e. str_eq e.0 j) k v t,
    count-has_key k t,
    eq_iff k j,
  )

  count-erase-le :
      (p : String × V → Bool) (k : String) (t : List (String × V)) → count p (erase k t) ≤ count p t
  unfolding erase
  count-erase-le p k [] = omega arith
  count-erase-le p k (e ∷ t) = ground (arith, count-erase-le p k t)

  pub erase-IsKeyed : (k : String) (t : List (String × V)) → IsKeyed t → IsKeyed (erase k t)
  erase-IsKeyed k t h j = omega (arith, h j, count-erase-le (λ e. str_eq e.0 j) k t)
