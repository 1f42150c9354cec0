-- ===== src/Validation/Guards.antt =====
-- A row of guards passes exactly where none of its conditions holds.
use distributed_container_or.Base.{
  ◌≡◌, refl, inl, inr, String, Bool, false, List, [], ◌∷◌, All, Option, none, some, Error,
  Bool-cases,
}
use distributed_container_or.Validation.{guards, or_else}

pub guards-none : (gs : List (Bool × String)) → guards gs ≡ none → All (λ g. g.0 ≡ false) gs
unfolding guards
guards-none [] e = tt
guards-none ((bad, body) ∷ gs) e = elim (Bool-cases bad) [
  | inl b ↦ cc (b, e)
  | inr b ↦ (b, guards-none gs (rw b at e))
]

pub guards_pass : (gs : List (Bool × String)) → All (λ g. g.0 ≡ false) gs → guards gs ≡ none
unfolding guards
guards_pass [] a = refl
guards_pass ((bad, body) ∷ gs) (b, a) = rw b (guards_pass gs a)

pub or_else-none : (x y : Option Error) → or_else x y ≡ none → (x ≡ none) × (y ≡ none)
unfolding or_else
or_else-none none y e = (refl, e)
or_else-none (some x) y e = cc e

pub or_else_pass : (x y : Option Error) → x ≡ none → y ≡ none → or_else x y ≡ none
unfolding or_else
or_else_pass x y e f = rw e f
