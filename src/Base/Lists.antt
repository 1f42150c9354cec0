-- ===== src/Base/Lists.antt =====
-- Lists measured and indexed by native numbers, and filtered by Boolean tests.
use Prim.Native.Nat.{ℕ, zero, suc, ◌+◌, ◌-◌, ◌≤◌, min}
use mathlib.Core.Path.{◌≡◌, refl, ap}
use mathlib.Core.Bool.{Bool, true, false}
use mathlib.Core.Logic.{◌⊎◌, inl, inr, ◌↔◌}
use mathlib.Core.List.{List, [], ◌∷◌, ◌++◌, map}
use mathlib.Core.Option.{Option, none, some}
use native.Mathlib.Omega.{arith}
use distributed_container_or.Base.Tests.{if◌then◌else◌, Bool-cases}

-- No element, at any level.
pub data Never {ℓ} : Type ℓ where

module _ {ℓ} {A : Type ℓ} where
  abbrev pub length : List A → ℕ
  length [] = 0
  length (x ∷ xs) = suc (length xs)

  abbrev pub get_elem? : List A → ℕ → Option A
  get_elem? [] i = none
  get_elem? (x ∷ xs) zero = some x
  get_elem? (x ∷ xs) (suc i) = get_elem? xs i

  abbrev pub get_or : List A → ℕ → A → A
  get_or [] i d = d
  get_or (x ∷ xs) zero d = x
  get_or (x ∷ xs) (suc i) d = get_or xs i d

  abbrev pub take : ℕ → List A → List A
  take zero xs = []
  take (suc n) [] = []
  take (suc n) (x ∷ xs) = x ∷ take n xs

  abbrev pub drop : ℕ → List A → List A
  drop zero xs = xs
  drop (suc n) [] = []
  drop (suc n) (x ∷ xs) = drop n xs

  -- `for _, x := range xs { if keep(x) { out = append(out, x) } }`
  abbrev pub keep : (A → Bool) → List A → List A
  keep p [] = []
  keep p (x ∷ xs) = if p x then x ∷ keep p xs else keep p xs

  -- `for _, x := range xs { if p(x) { c++ } }`
  abbrev pub count : (A → Bool) → List A → ℕ
  count p [] = 0
  count p (x ∷ xs) = if p x then suc (count p xs) else count p xs

  -- Loops that stop at the first element that passes, or fails.
  abbrev pub any : (A → Bool) → List A → Bool
  any p [] = false
  any p (x ∷ xs) = if p x then true else any p xs

  abbrev pub all : (A → Bool) → List A → Bool
  all p [] = true
  all p (x ∷ xs) = if p x then all p xs else false

  -- The first element that passes, as a loop with `break` finds it.
  abbrev pub find : (A → Bool) → List A → Option A
  find p [] = none
  find p (x ∷ xs) = if p x then some x else find p xs

  -- A predicate that holds of every element.
  abbrev pub All {κ} : (A → Type κ) → List A → Type κ
  All P [] = Unit
  All P (x ∷ xs) = P x × All P xs

  -- `x` is an element. It computes, so that the tactics take it apart.
  abbrev pub Elem : A → List A → Type ℓ
  Elem x [] = Never
  Elem x (y ∷ ys) = (x ≡ y) ⊎ Elem x ys

  -- `xs` is `ys` with elements left out.
  pub data Sub : List A → List A → Type ℓ where
    done : Sub [] []
    skip : {y : A} {xs ys : List A} → Sub xs ys → Sub xs (y ∷ ys)
    same : {y : A} {xs ys : List A} → Sub xs ys → Sub (y ∷ xs) (y ∷ ys)

  pub length-append : (xs ys : List A) → length (xs ++ ys) ≡ length xs + length ys
  length-append [] ys = omega arith
  length-append (x ∷ xs) ys = omega (arith, length-append xs ys)

  pub length-take-le : (n : ℕ) (xs : List A) → length (take n xs) ≤ n
  length-take-le zero xs = omega arith
  length-take-le (suc n) [] = omega arith
  length-take-le (suc n) (x ∷ xs) = omega (arith, length-take-le n xs)

  pub length-take : (n : ℕ) (xs : List A) → length (take n xs) ≡ min n (length xs)
  length-take zero xs = omega arith
  length-take (suc n) [] = omega arith
  length-take (suc n) (x ∷ xs) = omega (arith, length-take n xs)

  pub length-drop : (n : ℕ) (xs : List A) → length (drop n xs) ≡ length xs - n
  length-drop zero xs = omega arith
  length-drop (suc n) [] = omega arith
  length-drop (suc n) (x ∷ xs) = omega (arith, length-drop n xs)

  pub length-keep : (p : A → Bool) (xs : List A) → length (keep p xs) ≡ count p xs
  length-keep p [] = refl
  length-keep p (x ∷ xs) = ground (arith, length-keep p xs)

  pub count-le-length : (p : A → Bool) (xs : List A) → count p xs ≤ length xs
  count-le-length p [] = omega arith
  count-le-length p (x ∷ xs) = ground (arith, count-le-length p xs)

  pub Elem-keep :
      (p : A → Bool) (x : A) (xs : List A) → Elem x (keep p xs) → Elem x xs × (p x ≡ true)
  Elem-keep p x [] m = elim m [ ]
  Elem-keep p x (y ∷ ys) m = ground (arith, Elem-keep p x ys)

  pub keep-Elem : (p : A → Bool) (x : A) (xs : List A) → Elem x xs → p x ≡ true → Elem x (keep p xs)
  keep-Elem p x [] m e = elim m [ ]
  keep-Elem p x (y ∷ ys) m e = ground (arith, keep-Elem p x ys)

  pub any-Elem : (p : A → Bool) (xs : List A) → any p xs ≡ true → (x : A) × Elem x xs × (p x ≡ true)
  any-Elem p [] e = cc
  any-Elem p (x ∷ xs) e = elim (Bool-cases (p x)) [
    | inl h ↦ (x, inl refl, h)
    | inr h ↦ let r = any-Elem p xs (rw h at e) in (r.0, inr r.1, r.2)
  ]

  pub Elem-any : (p : A → Bool) (x : A) (xs : List A) → Elem x xs → p x ≡ true → any p xs ≡ true
  Elem-any p x [] m e = elim m [ ]
  Elem-any p x (y ∷ ys) m e = ground (arith, Elem-any p x ys)

  pub Elem-append : (x : A) (xs ys : List A) → Elem x (xs ++ ys) ↔ (Elem x xs ⊎ Elem x ys)
  Elem-append x [] ys = (λ m. inr m, λ m. elim m [ inl n ↦ elim n [ ] | inr n ↦ n ])
  Elem-append x (z ∷ xs) ys =
      (λ m. ground (arith, (Elem-append x xs ys).0), λ m. ground (arith, (Elem-append x xs ys).1))

  pub all-Elem : (p : A → Bool) (x : A) (xs : List A) → all p xs ≡ true → Elem x xs → p x ≡ true
  all-Elem p x [] e m = elim m [ ]
  all-Elem p x (y ∷ ys) e m = ground (arith, all-Elem p x ys)

  pub Elem-all : (p : A → Bool) (xs : List A) → ((x : A) → Elem x xs → p x ≡ true) → all p xs ≡ true
  Elem-all p [] h = refl
  Elem-all p (x ∷ xs) h = rw (h x (inl refl)) (Elem-all p xs (λ y m. h y (inr m)))

  pub All-Elem {κ} : (P : A → Type κ) (x : A) (xs : List A) → All P xs → Elem x xs → P x
  All-Elem P x [] a m = elim m [ ]
  All-Elem P x (y ∷ ys) a (inl e) = rw e a.0
  All-Elem P x (y ∷ ys) a (inr m) = All-Elem P x ys a.1 m

  pub find-Elem :
      (p : A → Bool) (xs : List A) (x : A) → find p xs ≡ some x → Elem x xs × (p x ≡ true)
  find-Elem p [] x e = cc
  find-Elem p (y ∷ ys) x e = ground (arith, find-Elem p ys x)

  pub All-keep : (p : A → Bool) (xs : List A) → All (λ x. p x ≡ true) (keep p xs)
  All-keep p [] = tt
  All-keep p (x ∷ xs) = ground (arith, All-keep p xs)

  pub Elem-take-drop :
      (n : ℕ) (x : A) (xs : List A) → Elem x xs → Elem x (take n xs) ⊎ Elem x (drop n xs)
  Elem-take-drop zero x xs m = inr m
  Elem-take-drop (suc n) x [] m = elim m [ ]
  Elem-take-drop (suc n) x (y ∷ ys) m = ground (arith, Elem-take-drop n x ys)

  pub Elem-take : (n : ℕ) (x : A) (xs : List A) → Elem x (take n xs) → Elem x xs
  Elem-take zero x xs m = elim m [ ]
  Elem-take (suc n) x [] m = elim m [ ]
  Elem-take (suc n) x (y ∷ ys) m = ground (arith, Elem-take n x ys)

  pub Elem-drop : (n : ℕ) (x : A) (xs : List A) → Elem x (drop n xs) → Elem x xs
  Elem-drop zero x xs m = m
  Elem-drop (suc n) x [] m = elim m [ ]
  Elem-drop (suc n) x (y ∷ ys) m = inr (Elem-drop n x ys m)

  pub take_all : (n : ℕ) (xs : List A) → length xs ≤ n → take n xs ≡ xs
  take_all zero [] h = refl
  take_all zero (x ∷ xs) h = absurd (omega arith)
  take_all (suc n) [] h = refl
  take_all (suc n) (x ∷ xs) h = rw (take_all n xs (omega arith))

pub length-map {ℓ κ} :
    {A : Type ℓ} {B : Type κ} (f : A → B) (xs : List A) → length (map f xs) ≡ length xs
length-map f [] = refl
length-map f (x ∷ xs) = ap suc (length-map f xs)

pub Elem-map {ℓ κ} :
    {A : Type ℓ} {B : Type κ} (f : A → B) (x : A) (xs : List A) → Elem x xs → Elem (f x) (map f xs)
Elem-map f x [] m = elim m [ ]
Elem-map f x (y ∷ ys) (inl e) = inl (ap f e)
Elem-map f x (y ∷ ys) (inr m) = inr (Elem-map f x ys m)
