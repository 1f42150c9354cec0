-- ===== src/Base/Sort.antt =====
-- `sort.SliceStable`: the stable sort by a test `less`. For a test that orders its elements the
-- result is determined, so insertion from the right stands for the library's merges.
use Prim.Native.Nat.{ℕ, zero, suc}
use mathlib.Core.Path.{◌≡◌, refl}
use mathlib.Core.Bool.{Bool, true, false}
use mathlib.Core.Logic.{◌⊎◌, inl, inr}
use mathlib.Core.List.{List, [], ◌∷◌}
use native.Mathlib.Omega.{arith}
use distributed_container_or.Base.Tests.{if◌then◌else◌}
use distributed_container_or.Base.Lists.{length, count, All, Elem, take, drop, All-Elem, Elem-drop}

module _ {ℓ} {A : Type ℓ} (less : A → A → Bool) where
  -- An element goes behind those that are less than it, and before its equals.
  unfoldable pub insert_stable : A → List A → List A
  insert_stable x [] = x ∷ []
  insert_stable x (y ∷ ys) = if less y x then y ∷ insert_stable x ys else x ∷ y ∷ ys

  unfoldable pub slice_stable : List A → List A
  unfolding insert_stable
  slice_stable [] = []
  slice_stable (x ∷ xs) = insert_stable x (slice_stable xs)

  pub Elem-insert_stable :
      (z x : A) (ys : List A) → Elem z (insert_stable x ys) → (z ≡ x) ⊎ Elem z ys
  unfolding insert_stable
  Elem-insert_stable z x [] m = ground arith
  Elem-insert_stable z x (y ∷ ys) m = ground (arith, Elem-insert_stable z x ys)

  pub insert_stable-Elem :
      (z x : A) (ys : List A) → (z ≡ x) ⊎ Elem z ys → Elem z (insert_stable x ys)
  unfolding insert_stable
  insert_stable-Elem z x [] m = ground arith
  insert_stable-Elem z x (y ∷ ys) m = ground (arith, insert_stable-Elem z x ys)

  pub Elem-slice_stable : (z : A) (xs : List A) → Elem z (slice_stable xs) → Elem z xs
  unfolding slice_stable
  Elem-slice_stable z [] m = elim m [ ]
  Elem-slice_stable z (x ∷ xs) m =
      ground (arith, Elem-insert_stable z x (slice_stable xs), Elem-slice_stable z xs)

  pub slice_stable-Elem : (z : A) (xs : List A) → Elem z xs → Elem z (slice_stable xs)
  unfolding slice_stable
  slice_stable-Elem z [] m = elim m [ ]
  slice_stable-Elem z (x ∷ xs) m =
      ground (arith, insert_stable-Elem z x (slice_stable xs), slice_stable-Elem z xs)

  pub count-insert_stable :
      (p : A → Bool) (x : A) (ys : List A) → count p (insert_stable x ys) ≡ count p (x ∷ ys)
  unfolding insert_stable
  count-insert_stable p x [] = refl
  count-insert_stable p x (y ∷ ys) = ground (arith, count-insert_stable p x ys)

  -- Sorting keeps the number of elements that pass any test.
  pub count-slice_stable : (p : A → Bool) (xs : List A) → count p (slice_stable xs) ≡ count p xs
  unfolding slice_stable
  count-slice_stable p [] = refl
  count-slice_stable p (x ∷ xs) =
      ground (arith, count-insert_stable p x (slice_stable xs), count-slice_stable p xs)

  pub length-insert_stable : (x : A) (ys : List A) → length (insert_stable x ys) ≡ suc (length ys)
  unfolding insert_stable
  length-insert_stable x [] = refl
  length-insert_stable x (y ∷ ys) = ground (arith, length-insert_stable x ys)

  pub length-slice_stable : (xs : List A) → length (slice_stable xs) ≡ length xs
  unfolding slice_stable
  length-slice_stable [] = refl
  length-slice_stable (x ∷ xs) =
      omega (arith, length-insert_stable x (slice_stable xs), length-slice_stable xs)

  -- No element stands behind one that it is less than.
  abbrev pub Ordered : List A → Type ℓ
  Ordered [] = Unit
  Ordered (x ∷ xs) = All (λ y. less y x ≡ false) xs × Ordered xs

  -- A strict order of classes of equals, on the elements that satisfy `P`.
  pub record IsWeakOrderOn (P : A → Type ℓ) : Type ℓ where
    pub asymm : (x y : A) → P x → P y → less x y ≡ true → less y x ≡ false
    pub trans_not :
        (x y z : A) → P x → P y → P z → less y x ≡ false → less z y ≡ false → less z x ≡ false

  pub record IsWeakOrder : Type ℓ where
    pub asymm : (x y : A) → less x y ≡ true → less y x ≡ false
    pub trans_not : (x y z : A) → less y x ≡ false → less z y ≡ false → less z x ≡ false

module _ {ℓ} {A : Type ℓ} (less : A → A → Bool) (P : A → Type ℓ) (o : IsWeakOrderOn less P) where
  All-below :
      (x y : A) (ys : List A)
      → P x
      → P y
      → All P ys
      → less y x ≡ false
      → All (λ z. less z y ≡ false) ys
      → All (λ z. less z x ≡ false) ys
  All-below x y [] px py ps e a = tt
  All-below x y (z ∷ zs) px py ps e a =
      (o.trans_not x y z px py ps.0 e a.0, All-below x y zs px py ps.1 e a.1)

  All-insert_stable {κ} :
      (Q : A → Type κ) (x : A) (ys : List A) → Q x → All Q ys → All Q (insert_stable less x ys)
  unfolding insert_stable
  All-insert_stable Q x [] e a = (e, tt)
  All-insert_stable Q x (y ∷ ys) e a = ground (arith, All-insert_stable Q x ys e a.1)

  Ordered-insert_stable :
      (x : A) (ys : List A)
      → P x
      → All P ys
      → Ordered less ys
      → Ordered less (insert_stable less x ys)
  unfolding insert_stable
  Ordered-insert_stable x [] px ps s = (tt, tt)
  Ordered-insert_stable x (y ∷ ys) px ps s = ground (
    arith,
    o.asymm y x ps.0 px,
    Ordered-insert_stable x ys px ps.1 s.1,
    All-below x y ys px ps.0 ps.1,
    All-insert_stable (λ z. less z y ≡ false) x ys,
  )

  pub All-slice_stable : (xs : List A) → All P xs → All P (slice_stable less xs)
  unfolding slice_stable
  All-slice_stable [] ps = tt
  All-slice_stable (x ∷ xs) ps =
      All-insert_stable P x (slice_stable less xs) ps.0 (All-slice_stable xs ps.1)

  pub Ordered-slice_stable_on : (xs : List A) → All P xs → Ordered less (slice_stable less xs)
  unfolding slice_stable
  Ordered-slice_stable_on [] ps = tt
  Ordered-slice_stable_on (x ∷ xs) ps =
      Ordered-insert_stable x (slice_stable less xs) ps.0 (All-slice_stable xs ps.1)
        (Ordered-slice_stable_on xs ps.1)

module _ {ℓ} {A : Type ℓ} (less : A → A → Bool) (o : IsWeakOrder less) where
  All-Unit : (xs : List A) → All {ℓ, ℓ} (λ _. Unit) xs
  All-Unit [] = tt
  All-Unit (x ∷ xs) = (tt, All-Unit xs)

  pub Ordered-slice_stable : (xs : List A) → Ordered less (slice_stable less xs)
  Ordered-slice_stable xs =
      Ordered-slice_stable_on less (λ _. Unit)
        (record { asymm = λ x y _ _. o.asymm x y; trans_not = λ x y z _ _ _. o.trans_not x y z }) xs
        (All-Unit xs)

module _ {ℓ} {A : Type ℓ} (less : A → A → Bool) where
  -- In an ordered list no element of a rest comes before one of the part in front of it.
  pub Ordered-take-drop :
      (n : ℕ) (x y : A) (xs : List A)
      → Ordered less xs
      → Elem x (take n xs)
      → Elem y (drop n xs)
      → less y x ≡ false
  Ordered-take-drop zero x y xs s m k = elim m [ ]
  Ordered-take-drop (suc n) x y [] s m k = elim m [ ]
  Ordered-take-drop (suc n) x y (z ∷ zs) s (inl e) k =
      rw e (All-Elem (λ w. less w z ≡ false) y zs s.0 (Elem-drop n y zs k))
  Ordered-take-drop (suc n) x y (z ∷ zs) s (inr m) k = Ordered-take-drop n x y zs s.1 m k
