-- ===== src/Text/Prefixes.antt =====
-- strings.HasPrefix and the words of its specification.
use openbao_plugin_secrets_s.Prelude.{
  ◌≡◌, refl, ap, ◌↔◌, true, List, [], ◌∷◌, ◌++◌, ◌==◌, Comparable, arith, String, eq_self, ◌∙◌,
}
use openbao_plugin_secrets_s.Text.{has_prefix, chars, of_chars}

pub of_chars-chars : (s : String) → of_chars (chars s) ≡ s
of_chars-chars Prim.Native.String.[] = refl
of_chars-chars (Prim.Native.String.◌∷◌ c s) =
    ap (λ t. Prim.Native.String.◌∷◌ c t) (of_chars-chars s)

module _ {A : Type 0} ⦃e : Comparable A⦄ where
  -- The text goes on after the prefix.
  abbrev pub Extends : List A → List A → Type 0
  Extends s p = (rest : List A) × (s ≡ p ++ rest)

  prefix-Extends : (s p : List A) → has_prefix s p ≡ true → Extends s p
  unfolding has_prefix
  prefix-Extends s [] h = (s, refl)
  prefix-Extends [] (c ∷ p) h = cc h
  prefix-Extends (d ∷ s) (c ∷ p) h =
      let both : ((d == c) ≡ true) × (has_prefix s p ≡ true) = ground arith in
      let (rest, q) = prefix-Extends s p both.1 in
      let same : d ≡ c = (e.same_iff d c).0 both.0 in (rest, cc (same, q))

  append_prefix : (p rest : List A) → has_prefix (p ++ rest) p ≡ true
  unfolding has_prefix
  append_prefix [] rest = refl
  append_prefix (c ∷ p) rest = rw (eq_self c, append_prefix p rest)

  pub has_prefix_iff : (s p : List A) → (has_prefix s p ≡ true) ↔ Extends s p
  has_prefix_iff s p = (prefix-Extends s p, λ h. ap (λ t. has_prefix t p) h.1 ∙ append_prefix p h.0)
