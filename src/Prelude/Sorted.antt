-- ===== src/Prelude/Sorted.antt =====
-- Python's `sorted` on texts, which compares code points, and `set` of a list.
use Prim.Native.String.{String, compare}
use Prim.Native.Nat.{Ordering}
use mathlib.Core.Bool.{Bool, true, false}
use mathlib.Core.List.{List, [], ◌∷◌}
use cage_agent_security.Prelude.Tests.{if◌then◌else◌}
use cage_agent_security.Prelude.Eq.{HasEq, contains}

abbrev text_leb : String → String → Bool
text_leb a b = elim (compare a b) [ Ordering.gt ↦ false | _ ↦ true ]

insert : String → List String → List String
insert x [] = x ∷ []
insert x (y ∷ ys) = let rest = insert x ys in if text_leb x y then x ∷ y ∷ ys else y ∷ rest

unfoldable pub sorted : List String → List String
unfolding insert
sorted [] = []
sorted (x ∷ xs) = insert x (sorted xs)

-- `set(xs)`
unfoldable pub to_set {ℓ} : {A : Type ℓ} ⦃e : HasEq A⦄ → List A → List A
to_set [] = []
to_set (x ∷ xs) = let rest = to_set xs in if contains rest x then rest else x ∷ rest
