-- ===== src/Prelude/Tests.antt =====
-- Boolean tests on numbers and texts, the conditional, and the cases of a computed value.
use Prim.Native.Nat.{ℕ, ◌≤◌, ◌<◌, compare, Ordering}
use Prim.Native.String.{String}
use mathlib.Core.Path.{◌≡◌, refl}
use mathlib.Core.Logic.{◌↔◌, ◌⊎◌, inl, inr}
use mathlib.Core.Bool.{Bool, true, false, not}
use mathlib.Core.Option.{Option, none, some}
use native.Mathlib.Omega.{arith}
use text.Mathlib.Text.{◌==◌ as str_eq}
use text.Mathlib.TextEquality.{eq_iff}

abbrev pub ltb : ℕ → ℕ → Bool
ltb a b = elim (compare a b) [ Ordering.lt ↦ true | _ ↦ false ]

abbrev pub leb : ℕ → ℕ → Bool
leb a b = elim (compare a b) [ Ordering.gt ↦ false | _ ↦ true ]

abbrev pub nat_beq : ℕ → ℕ → Bool
nat_beq a b = elim (compare a b) [ Ordering.eq ↦ true | _ ↦ false ]

infix 1 if◌then◌else◌
abbrev pub if◌then◌else◌ {ℓ} : {A : Type ℓ} → Bool → A → A → A
if true then x else y = x
if false then x else y = y

-- Go's `==` on the values that the program compares.
pub record Comparable {ℓ} (A : Type ℓ) : Type ℓ where
  pub same : A → A → Bool
  pub same_iff : (a b : A) → (same a b ≡ true) ↔ (a ≡ b)

infix 50 ◌==◌ ◌!=◌
abbrev pub ◌==◌ {ℓ} : {T : Type ℓ} ⦃c : Comparable T⦄ → T → T → Bool
◌==◌ ⦃c⦄ = c.same

abbrev pub ◌!=◌ {ℓ} : {T : Type ℓ} ⦃c : Comparable T⦄ → T → T → Bool
a != b = not (a == b)

pub nat_beq_iff : (a b : ℕ) → (nat_beq a b ≡ true) ↔ (a ≡ b)
nat_beq_iff a b = ground arith

instance abbrev pub string_eq : Comparable String
string_eq = record { same = str_eq; same_iff = eq_iff }

instance abbrev pub nat_eq : Comparable ℕ
nat_eq = record { same = nat_beq; same_iff = nat_beq_iff }

pub ltb→lt : (a b : ℕ) → ltb a b ≡ true → a < b
ltb→lt a b h = ground arith

pub lt→ltb : (a b : ℕ) → a < b → ltb a b ≡ true
lt→ltb a b h = ground arith

pub leb→le : (a b : ℕ) → leb a b ≡ true → a ≤ b
leb→le a b h = ground arith

pub le→leb : (a b : ℕ) → a ≤ b → leb a b ≡ true
le→leb a b h = ground arith

pub Bool-cases : (b : Bool) → (b ≡ true) ⊎ (b ≡ false)
Bool-cases true = inl refl
Bool-cases false = inr refl

pub Option-cases {ℓ} : {A : Type ℓ} (o : Option A) → (o ≡ none) ⊎ ((a : A) × (o ≡ some a))
Option-cases none = inl refl
Option-cases (some a) = inr (a, refl)

-- A type whose `==` decides equality is discrete.
dec_of_beq {ℓ} : {A : Type ℓ} (a b : A) (t : Bool) → (t ≡ true) ↔ (a ≡ b) → Dec (a ≡ b)
dec_of_beq a b true e = yes (e.0 refl)
dec_of_beq a b false e =
    no (λ p. elim (Bool-cases false) [ inl q ↦ cc (e.1 p) | inr q ↦ cc (e.1 p) ])

unfoldable pub string_discrete : Discrete String
unfolding dec_of_beq
string_discrete a b = dec_of_beq a b (str_eq a b) (eq_iff a b)

pub eq_self {ℓ} : {A : Type ℓ} ⦃e : Comparable A⦄ (a : A) → (a == a) ≡ true
eq_self ⦃e⦄ a = (e.same_iff a a).1 refl

abbrev pub to_bool {ℓ} : {P : Type ℓ} → Dec P → Bool
to_bool (yes _) = true
to_bool (no _) = false

pub to_bool_iff {ℓ} : {P : Type ℓ} (d : Dec P) → (to_bool d ≡ true) ↔ P
to_bool_iff (yes p) = (λ _. p, λ _. refl)
to_bool_iff (no f) = (λ e. cc, λ p. absurd (f p))

abbrev pub eq_of_discrete {ℓ} : {A : Type ℓ} → Discrete A → Comparable A
eq_of_discrete d = record { same = λ a b. to_bool (d a b); same_iff = λ a b. to_bool_iff (d a b) }
