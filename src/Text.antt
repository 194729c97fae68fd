-- ===== src/Text.antt =====
-- The functions of Go's `strings` package that the backend uses, on texts as lists of characters.
pub mod Prefixes
use Prim.Native.Nat.{ℕ, zero, suc}
use mathlib.Core.List.{reverse}
use Prim.Native.Char.{Char, code}
use Prim.Native.String
use text.Mathlib.TextEquality.{Char-path}
use openbao_plugin_secrets_s.Prelude.{
  ◌≡◌, refl, ap, ◌↔◌, Bool, true, false, ◌&&◌, ◌||◌, List, [], ◌∷◌, ◌++◌, Option, none, some,
  String, Comparable, ◌==◌, if◌then◌else◌, nat_eq, leb, ◌<◌, inl, inr, Bool-cases, arith, ◌-◌, ◌/◌,
  ◌%◌, length,
}

pub char_eq_iff : (c d : Char) → ((code c == code d) ≡ true) ↔ (c ≡ d)
char_eq_iff c d =
    (λ e. Char-path c d ((nat_eq.same_iff _ _).0 e), λ p. (nat_eq.same_iff _ _).1 (ap code p))

instance abbrev pub char_eq : Comparable Char
char_eq = record { same = λ c d. code c == code d; same_iff = char_eq_iff }

abbrev pub chars : String → List Char
chars String.[] = []
chars (String.◌∷◌ c s) = c ∷ chars s

abbrev pub of_chars : List Char → String
of_chars [] = String.[]
of_chars (c ∷ s) = String.◌∷◌ c (of_chars s)

pub chars-of_chars : (s : List Char) → chars (of_chars s) ≡ s
chars-of_chars [] = refl
chars-of_chars (c ∷ s) = ap (λ t. c ∷ t) (chars-of_chars s)

-- unicode.IsSpace.
unfoldable pub is_space : Char → Bool
is_space c =
    let n = code c in
    (leb 9 n && leb n 13)
    || n == 32
    || n == 0x85
    || n == 0xA0
    || n == 0x1680
    || (leb 0x2000 n && leb n 0x200A)
    || n == 0x2028
    || n == 0x2029
    || n == 0x202F
    || n == 0x205F
    || n == 0x3000

-- strings.TrimSpace.
unfoldable pub trim_space_left : List Char → List Char
unfolding is_space
trim_space_left [] = []
trim_space_left (c ∷ s) = if is_space c then trim_space_left s else c ∷ s

abbrev cons_unspaced : Char → List Char → List Char
cons_unspaced c [] = if is_space c then [] else c ∷ []
cons_unspaced c (d ∷ s) = c ∷ d ∷ s

unfoldable pub trim_space_right : List Char → List Char
unfolding is_space
trim_space_right [] = []
trim_space_right (c ∷ s) = cons_unspaced c (trim_space_right s)

unfoldable pub trim_space : List Char → List Char
unfolding trim_space_left trim_space_right
trim_space s = trim_space_right (trim_space_left s)

module _ {A : Type 0} ⦃e : Comparable A⦄ where
  -- strings.HasPrefix.
  unfoldable pub has_prefix : List A → List A → Bool
  has_prefix s [] = true
  has_prefix [] (p ∷ ps) = false
  has_prefix (c ∷ s) (p ∷ ps) = c == p && has_prefix s ps

  -- strings.HasSuffix.
  unfoldable pub has_suffix : List A → List A → Bool
  unfolding has_prefix
  has_suffix s suffix = has_prefix (reverse s) (reverse suffix)

  -- strings.Contains.
  unfoldable pub contains_text : List A → List A → Bool
  unfolding has_prefix
  contains_text [] p = has_prefix [] p
  contains_text (c ∷ s) p = has_prefix (c ∷ s) p || contains_text s p

  -- strings.TrimLeft, TrimRight and Trim with one character.
  unfoldable pub trim_left : A → List A → List A
  trim_left x [] = []
  trim_left x (c ∷ s) = if c == x then trim_left x s else c ∷ s

  abbrev cons_trimmed : A → A → List A → List A
  cons_trimmed x c [] = if c == x then [] else c ∷ []
  cons_trimmed x c (d ∷ s) = c ∷ d ∷ s

  unfoldable pub trim_right : A → List A → List A
  trim_right x [] = []
  trim_right x (c ∷ s) = cons_trimmed x c (trim_right x s)

  unfoldable pub trim : A → List A → List A
  unfolding trim_left trim_right
  trim x s = trim_right x (trim_left x s)

  abbrev cons_part : A → List (List A) → List (List A)
  cons_part c [] = (c ∷ []) ∷ []
  cons_part c (part ∷ parts) = (c ∷ part) ∷ parts

  -- strings.Split at one character: always one part at least.
  unfoldable pub split : A → List A → List (List A)
  split x [] = [] ∷ []
  split x (c ∷ s) = let parts = split x s in if c == x then [] ∷ parts else cons_part c parts

  -- The first pair whose old text begins `s`, as strings.NewReplacer looks for it.
  find_replacement : List (List A × List A) → List A → Option (List A × List A)
  find_replacement [] s = none
  find_replacement ((old, new) ∷ pairs) s =
      if has_prefix s old then some (old, new) else find_replacement pairs s

  -- What stands at a place for the text there, and how many characters it passes over after one.
  replacement_at : List (List A × List A) → A → List A → List A × ℕ
  unfolding find_replacement
  replacement_at pairs c s = elim (find_replacement pairs (c ∷ s)) [
    | none ↦ (c ∷ [], 0)
    | some (old, new) ↦ (new, length old - 1)
  ]

  -- strings.NewReplacer(pairs...).Replace, for old texts that are not empty.
  unfoldable pub replace_from : ℕ → List (List A × List A) → List A → List A
  unfolding replacement_at
  replace_from skip pairs [] = []
  replace_from (suc skip) pairs (c ∷ s) = replace_from skip pairs s
  replace_from zero pairs (c ∷ s) =
      let (new, skip) = replacement_at pairs c s in new ++ replace_from skip pairs s

-- strings.Join with one character between the parts.
unfoldable pub join : {A : Type 0} → A → List (List A) → List A
join x [] = []
join x (part ∷ []) = part
join x (part ∷ next ∷ parts) = part ++ (x ∷ join x (next ∷ parts))

abbrev digit : ℕ → String
digit n =
    if n == 0
    then "0"
    else if n == 1
    then "1"
    else if n == 2
    then "2"
    else if n == 3
    then "3"
    else if n == 4
    then "4"
    else if n == 5
    then "5"
    else if n == 6
    then "6"
    else if n == 7
    then "7"
    else if n == 8
    then "8"
    else "9"

-- The digits of `n` before `rest`; a number has fewer digits than `n + 1`.
itoa_from : ℕ → ℕ → String → String
itoa_from zero n rest = rest
itoa_from (suc fuel) n rest =
    let more = itoa_from fuel (n / 10) (String.◌++◌ (digit (n % 10)) rest) in
    if leb n 9 then String.◌++◌ (digit n) rest else more

itoa_from_enough :
    (f g n : ℕ) (rest : String) → n < f → n < g → itoa_from f n rest ≡ itoa_from g n rest
unfolding itoa_from
itoa_from_enough zero g n rest p q = absurd (omega arith)
itoa_from_enough (suc f) zero n rest p q = absurd (omega arith)
itoa_from_enough (suc f) (suc g) n rest p q = elim (Bool-cases (leb n 9)) [
  | inl e ↦ rw e refl
  | inr e ↦ rw e (
      itoa_from_enough f g (n / 10) (String.◌++◌ (digit (n % 10)) rest) (ground arith)
        (ground arith))
]

-- strconv.Itoa, on numbers that are not negative.
unfoldable pub itoa : ℕ → String
unfolding itoa_from
itoa n = itoa_from (suc n) n ""

itoa_test : itoa 1204 ≡ "1204"
unfolding itoa
itoa_test = refl
