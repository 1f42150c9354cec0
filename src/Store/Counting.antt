-- ===== src/Store/Counting.antt =====
-- How a write or a deletion changes the number of a table's values that pass a test.
use distributed_container_or.Base.{
  ℕ, ◌+◌, ◌≡◌, refl, inl, inr, String, Bool, true, false, List, [], ◌∷◌, Option, none, some, arith,
  str_eq, eq_iff, count, Bool-cases,
}
use distributed_container_or.Store.Table.{
  lookup, replace, has_key, insert, erase, values, IsKeyed, count-place, count-has_key,
}

abbrev pub bit : Bool → ℕ
bit true = 1
bit false = 0

module _ {ℓ} {V : Type ℓ} (p : V → Bool) where
  -- 1 where the table has a value at the key and it passes.
  abbrev pub passing : Option V → ℕ
  passing none = 0
  passing (some v) = bit (p v)

  on_entry : String × V → Bool
  on_entry e = p e.1

  count-values : (t : List (String × V)) → count p (values t) ≡ count on_entry t
  unfolding values on_entry
  count-values [] = refl
  count-values ((k, v) ∷ t) = ground (arith, count-values t)

  replace_absent :
      (k : String) (v : V) (t : List (String × V)) → has_key k t ≡ false → replace k v t ≡ t
  unfolding replace has_key
  replace_absent k v [] e = refl
  replace_absent k v ((j, w) ∷ t) e = ground (arith, replace_absent k v t)

  lookup_absent : (k : String) (t : List (String × V)) → has_key k t ≡ false → lookup k t ≡ none
  unfolding lookup has_key
  lookup_absent k [] e = refl
  lookup_absent k ((j, w) ∷ t) e = ground (arith, lookup_absent k t)

  tail-IsKeyed : (e : String × V) (t : List (String × V)) → IsKeyed (e ∷ t) → IsKeyed t
  tail-IsKeyed e t h k = ground (arith, h k)

  head_absent :
      (k : String) (v : V) (t : List (String × V)) → IsKeyed ((k, v) ∷ t) → has_key k t ≡ false
  head_absent k v t h = ground (arith, h k, count-has_key k t, eq_iff k k, Bool-cases (has_key k t))

  count-replace :
      (k : String) (v : V) (t : List (String × V))
      → IsKeyed t
      → has_key k t ≡ true
      → count on_entry (replace k v t) + passing (lookup k t) ≡ count on_entry t + bit (p v)
  unfolding replace lookup has_key on_entry
  count-replace k v [] h e = cc
  count-replace k v ((j, w) ∷ t) h e = elim (Bool-cases (str_eq j k)) [
    | inl same ↦
        let gone = replace_absent k v t (rw ((eq_iff j k).0 same) at (head_absent j w t h)) in
        ground (arith, gone)
    | inr other ↦ ground (arith, count-replace k v t (tail-IsKeyed (j, w) t h))
  ]

  -- A write adds the new value and takes the one that it replaces away.
  pub count-insert :
      (k : String) (v : V) (t : List (String × V))
      → IsKeyed t
      → count p (values (insert k v t)) + passing (lookup k t) ≡ count p (values t) + bit (p v)
  unfolding insert on_entry
  count-insert k v t h = ground (
    arith,
    count-values (insert k v t),
    count-values t,
    count-replace k v t h,
    count-place on_entry k v t,
    lookup_absent k t,
  )

  erase_absent : (k : String) (t : List (String × V)) → has_key k t ≡ false → erase k t ≡ t
  unfolding erase has_key
  erase_absent k [] e = refl
  erase_absent k ((j, w) ∷ t) e = ground (arith, erase_absent k t)

  count_entry-erase :
      (k : String) (t : List (String × V))
      → IsKeyed t
      → count on_entry (erase k t) + passing (lookup k t) ≡ count on_entry t
  unfolding erase lookup on_entry
  count_entry-erase k [] h = refl
  count_entry-erase k ((j, w) ∷ t) h = elim (Bool-cases (str_eq j k)) [
    | inl same ↦
        let gone = erase_absent k t (rw ((eq_iff j k).0 same) at (head_absent j w t h)) in
        ground (arith, gone)
    | inr other ↦ ground (arith, count_entry-erase k t (tail-IsKeyed (j, w) t h))
  ]

  -- A deletion takes the value at the key away.
  pub count-erase :
      (k : String) (t : List (String × V))
      → IsKeyed t
      → count p (values (erase k t)) + passing (lookup k t) ≡ count p (values t)
  unfolding on_entry
  count-erase k t h =
      ground (arith, count-values (erase k t), count-values t, count_entry-erase k t h)
