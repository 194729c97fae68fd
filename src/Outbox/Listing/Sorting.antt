-- ===== src/Outbox/Listing/Sorting.antt =====
-- The sorting of the listings of storage_outbox.go.
use openbao_plugin_secrets_s.Prelude.{
  suc, ◌≡◌, refl, ◌∙◌, ap, ◌⊎◌, inl, inr, Bool, List, [], ◌∷◌, In, length, arith,
}
use openbao_plugin_secrets_s.Outbox.Listing.{insert_sorted, sort_by}

module _ {A : Type 0} (before : A → A → Bool) where
  length-insert_sorted :
      (a : A) (xs : List A) → length (insert_sorted before a xs) ≡ suc (length xs)
  unfolding insert_sorted
  length-insert_sorted a [] = refl
  length-insert_sorted a (x ∷ xs) = ground (arith, length-insert_sorted a xs)

  pub length-sort_by : (xs : List A) → length (sort_by before xs) ≡ length xs
  unfolding sort_by
  length-sort_by [] = refl
  length-sort_by (x ∷ xs) = length-insert_sorted x _ ∙ ap suc (length-sort_by xs)

  In-insert_sorted : (a b : A) (xs : List A) → In b (insert_sorted before a xs) → (a ≡ b) ⊎ In b xs
  unfolding insert_sorted
  In-insert_sorted a b [] (inl e) = inl e
  In-insert_sorted a b [] (inr m) = absurd m
  In-insert_sorted a b (x ∷ xs) m = ground (arith, In-insert_sorted a b xs)

  pub In-sort_by : (b : A) (xs : List A) → In b (sort_by before xs) → In b xs
  unfolding sort_by
  In-sort_by b [] m = absurd m
  In-sort_by b (x ∷ xs) m = elim (In-insert_sorted x b _ m) [
    | inl e ↦ inl e
    | inr n ↦ inr (In-sort_by b xs n)
  ]

  In-inserted : (a b : A) (xs : List A) → (a ≡ b) ⊎ In b xs → In b (insert_sorted before a xs)
  unfolding insert_sorted
  In-inserted a b [] h = h
  In-inserted a b (x ∷ xs) h = ground (arith, In-inserted a b xs)

  pub In-sorted : (b : A) (xs : List A) → In b xs → In b (sort_by before xs)
  unfolding sort_by
  In-sorted b [] m = absurd m
  In-sorted b (x ∷ xs) (inl e) = In-inserted x b _ (inl e)
  In-sorted b (x ∷ xs) (inr m) = In-inserted x b _ (inr (In-sorted b xs m))
