-- ===== src/Naming/Allowed.antt =====
-- The source path prefixes of a destination (association_policy.go).
use openbao_plugin_secrets_s.Prelude.{
  ◌≡◌, refl, sym, subst, ◌↔◌, ◌⊎◌, inl, inr, Bool, true, false, ◌||◌, List, [], ◌∷◌, ◌++◌, String,
  In, string_eq,
}
use openbao_plugin_secrets_s.Text.{chars, char_eq}
use openbao_plugin_secrets_s.Text.Prefixes.{of_chars-chars, has_prefix_iff, Extends}
use openbao_plugin_secrets_s.Naming.{is_under, any_under, source_path_allowed, slash}

-- The path is the prefix, or the prefix and then a slash and more.
abbrev pub IsUnder : String → String → Type 0
IsUnder path prefix = (path ≡ prefix) ⊎ Extends (chars path) (chars prefix ++ slash ∷ [])

or_iff : (a b : Bool) (P Q : Type 0) → (a ≡ true) ↔ P → (b ≡ true) ↔ Q → ((a || b) ≡ true) ↔ (P ⊎ Q)
or_iff true b P Q f g = (λ h. inl (f.0 refl), λ u. refl)
or_iff false b P Q f g = (λ h. inr (g.0 h), λ u. elim u [ inl p ↦ cc (f.1 p) | inr q ↦ g.1 q ])

is_under_iff :
    (path prefix : String) → (is_under (chars path) (chars prefix) ≡ true) ↔ IsUnder path prefix
unfolding is_under
is_under_iff path prefix =
    rw (of_chars-chars path, of_chars-chars prefix)
      (or_iff _ _ _ _ (string_eq.same_iff path prefix)
        (has_prefix_iff (chars path) (chars prefix ++ slash ∷ [])))

abbrev pub UnderOne : String → List String → Type 0
UnderOne path prefixes = (prefix : String) × In prefix prefixes × IsUnder path prefix

any_under_iff :
    (path : String) (prefixes : List String)
    → (any_under (chars path) prefixes ≡ true) ↔ UnderOne path prefixes
unfolding any_under
any_under_iff path [] = (λ h. cc h, λ u. absurd u.1)
any_under_iff path (prefix ∷ prefixes) =
    let split = or_iff _ _ _ _ (is_under_iff path prefix) (any_under_iff path prefixes) in
    (
      λ h. elim (split.0 h) [ inl u ↦ (prefix, inl refl, u) | inr v ↦ (v.0, inr v.1, v.2) ],
      λ u. elim u.1 [
        | inl e ↦ split.1 (inl (subst (IsUnder path) (sym e) u.2))
        | inr m ↦ split.1 (inr (u.0, m, u.2))
      ],
    )

-- A destination that lists prefixes allows exactly the source paths that are one of them or continue
-- one of them with a slash; one that lists none allows every path.
pub source_path_allowed_iff :
    (path : String) (prefixes : List String)
    → (source_path_allowed path prefixes ≡ true) ↔ ((prefixes ≡ []) ⊎ UnderOne path prefixes)
unfolding source_path_allowed
source_path_allowed_iff path [] = (λ h. inl refl, λ u. refl)
source_path_allowed_iff path (prefix ∷ prefixes) =
    let every = any_under_iff path (prefix ∷ prefixes) in
    (λ h. inr (every.0 h), λ u. elim u [ inl e ↦ cc e | inr v ↦ every.1 v ])
