-- ===== src/Prelude/Lists.antt =====
-- Lists over the native numbers, and predicates on lists by recursion.
use Prim.Native.Nat.{ℕ, suc, ◌+◌}
use mathlib.Core.Path.{◌≡◌, refl}
use mathlib.Core.Bool.{Bool, true, false, ◌||◌}
use mathlib.Core.List.{List, [], ◌∷◌, ◌++◌}
use mathlib.Core.Logic.{◌⊎◌, inl, inr}
use native.Mathlib.Omega.{arith}
use openbao_plugin_secrets_s.Prelude.Tests.{Comparable, ◌==◌, if◌then◌else◌}

module _ {ℓ} {A : Type ℓ} where
  abbrev pub length : List A → ℕ
  length [] = 0
  length (x ∷ xs) = suc (length xs)

  pub length-append : (xs ys : List A) → length (xs ++ ys) ≡ length xs + length ys
  length-append [] ys = omega arith
  length-append (x ∷ xs) ys = omega (arith, length-append xs ys)

  -- The elements that pass a test, in order.
  unfoldable pub keep_if : (A → Bool) → List A → List A
  keep_if p [] = []
  keep_if p (x ∷ xs) = if p x then x ∷ keep_if p xs else keep_if p xs

  abbrev pub All {κ} : (A → Type κ) → List A → Type κ
  All P [] = Unit
  All P (x ∷ xs) = P x × All P xs

module _ {A : Type 0} where
  abbrev pub In : A → List A → Type 0
  In a [] = ⊥
  In a (x ∷ xs) = (x ≡ a) ⊎ In a xs

  pub All-In {κ} : (P : A → Type κ) (xs : List A) (a : A) → All P xs → In a xs → P a
  All-In P [] a h m = absurd m
  All-In P (x ∷ xs) a h (inl e) = rw e at h.0
  All-In P (x ∷ xs) a h (inr m) = All-In P xs a h.1 m

  pub All-of_In {κ} : (P : A → Type κ) (xs : List A) → ((a : A) → In a xs → P a) → All P xs
  All-of_In P [] h = tt
  All-of_In P (x ∷ xs) h = (h x (inl refl), All-of_In P xs (λ a m. h a (inr m)))

  pub All-map {κ κ'} :
      (P : A → Type κ) (Q : A → Type κ') (xs : List A) → ((a : A) → P a → Q a) → All P xs → All Q xs
  All-map P Q [] f h = tt
  All-map P Q (x ∷ xs) f h = (f x h.0, All-map P Q xs f h.1)

module _ {A : Type 0} ⦃e : Comparable A⦄ where
  -- A Go set, or a search of a slice.
  unfoldable pub contains : List A → A → Bool
  contains [] a = false
  contains (x ∷ xs) a = x == a || contains xs a

  pub contains_of_In : (xs : List A) (a : A) → In a xs → contains xs a ≡ true
  unfolding contains
  contains_of_In [] a m = absurd m
  contains_of_In (x ∷ xs) a (inl p) = rw ((e.same_iff x a).1 p)
  contains_of_In (x ∷ xs) a (inr m) = ground (arith, contains_of_In xs a m)

module _ {A : Type 0} where
  pub In-append : (a : A) (xs ys : List A) → In a ys → In a (xs ++ ys)
  In-append a [] ys m = m
  In-append a (x ∷ xs) ys m = inr (In-append a xs ys m)
