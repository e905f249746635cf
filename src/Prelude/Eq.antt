-- ===== src/Prelude/Eq.antt =====
-- Python's `==` on the values that the program compares, and its sets as lists with a test.
use Prim.Native.Nat.{ℕ}
use Prim.Native.String.{String}
use mathlib.Core.Path.{◌≡◌, refl, ap}
use mathlib.Core.Logic.{◌↔◌}
use mathlib.Core.Bool.{Bool, true, false, not, ◌&&◌, ◌||◌}
use mathlib.Core.List.{List, [], ◌∷◌, ◌++◌}
use native.Mathlib.Omega.{arith}
use text.Mathlib.Text.{◌==◌ as str_eq}
use text.Mathlib.TextEquality.{eq_iff}
use cage_agent_security.Prelude.Tests.{eqb, eqb_iff, if◌then◌else◌}

pub record HasEq {ℓ} (A : Type ℓ) : Type ℓ where
  pub equals : A → A → Bool
  pub equals_iff : (a b : A) → (equals a b ≡ true) ↔ (a ≡ b)

infix 50 ◌==◌
abbrev pub ◌==◌ {ℓ} : {A : Type ℓ} ⦃e : HasEq A⦄ → A → A → Bool
◌==◌ ⦃e⦄ = e.equals

-- Equality of the members of an enumeration, by a number for each.
pub by_code_iff :
    {A : Type 0} (code : A → ℕ) (injective : (a b : A) → code a ≡ code b → a ≡ b) (a b : A)
    → (eqb (code a) (code b) ≡ true) ↔ (a ≡ b)
by_code_iff code injective a b = (
  λ h. injective a b ((eqb_iff (code a) (code b)).0 h),
  λ h. (eqb_iff (code a) (code b)).1 (ap code h),
)

abbrev pub by_code : {A : Type 0} (code : A → ℕ) → ((a b : A) → code a ≡ code b → a ≡ b) → HasEq A
by_code code injective = record {
  equals = λ a b. eqb (code a) (code b);
  equals_iff = by_code_iff code injective;
}

-- Texts, then counts and times.
instance abbrev pub string_eq : HasEq String
string_eq = record { equals = str_eq; equals_iff = eq_iff }

instance abbrev pub nat_eq : HasEq ℕ
nat_eq = by_code (λ n. n) (λ a b h. h)

module _ {ℓ} {A : Type ℓ} ⦃e : HasEq A⦄ where
  pub ==-refl : (a : A) → (a == a) ≡ true
  ==-refl a = (e.equals_iff a a).1 refl

  -- `a in xs`
  unfoldable pub contains : List A → A → Bool
  contains [] a = false
  contains (x ∷ xs) a = x == a || contains xs a

  -- `xs.issubset(ys)`
  unfoldable pub issubset : List A → List A → Bool
  issubset [] ys = true
  issubset (x ∷ xs) ys = contains ys x && issubset xs ys

  -- `xs & ys`
  unfoldable pub intersection : List A → List A → List A
  intersection [] ys = []
  intersection (x ∷ xs) ys =
      let rest = intersection xs ys in if contains ys x then x ∷ rest else rest

  -- `xs - ys`
  unfoldable pub difference : List A → List A → List A
  difference [] ys = []
  difference (x ∷ xs) ys = let rest = difference xs ys in if contains ys x then rest else x ∷ rest

  -- `s.add(a)`
  unfoldable pub add : List A → A → List A
  add xs a = if contains xs a then xs else xs ++ a ∷ []

  pub contains-append :
      (xs ys : List A) (a : A) → contains (xs ++ ys) a ≡ (contains xs a || contains ys a)
  unfolding contains
  contains-append [] ys a = refl
  contains-append (x ∷ xs) ys a = ground (arith, contains-append xs ys a)

  pub contains-intersection :
      (xs ys : List A) (a : A) → contains (intersection xs ys) a ≡ (contains xs a && contains ys a)
  unfolding contains intersection
  contains-intersection [] ys a = refl
  contains-intersection (x ∷ xs) ys a =
      ground (arith, contains-intersection xs ys a, e.equals_iff x a)

  pub contains-difference :
      (xs ys : List A) (a : A)
      → contains (difference xs ys) a ≡ (contains xs a && not (contains ys a))
  unfolding contains difference
  contains-difference [] ys a = refl
  contains-difference (x ∷ xs) ys a = ground (arith, contains-difference xs ys a, e.equals_iff x a)

  -- A subset test that passes, read at one element.
  pub contains_of_issubset :
      (xs ys : List A) (a : A) → issubset xs ys ≡ true → contains xs a ≡ true → contains ys a ≡ true
  unfolding contains issubset
  contains_of_issubset [] ys a h k = ground arith
  contains_of_issubset (x ∷ xs) ys a h k =
      ground (arith, contains_of_issubset xs ys a, e.equals_iff x a)

  pub contains-add : (xs : List A) (a b : A) → contains (add xs a) b ≡ (contains xs b || a == b)
  unfolding add contains
  contains-add xs a b = ground (arith, contains-append xs (a ∷ []) b, e.equals_iff a b)

-- A subset test from the memberships.
module _ {ℓ} {A : Type ℓ} ⦃e : HasEq A⦄ where
  pub issubset_of_contains :
      (xs ys : List A)
      → ((a : A) → contains xs a ≡ true → contains ys a ≡ true)
      → issubset xs ys ≡ true
  unfolding contains issubset
  issubset_of_contains [] ys h = refl
  issubset_of_contains (x ∷ xs) ys h =
      ground (arith, h x, ==-refl x, issubset_of_contains xs ys (λ a k. h a (ground arith)))
