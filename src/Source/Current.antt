-- ===== src/Source/Current.antt =====
-- The pruning of versions and the version that a write stores (storage_source.go).
use openbao_plugin_secrets_s.Prelude.{
  ℕ, ◌+◌, ◌-◌, ◌≤◌, ◌<◌, ◌≡◌, refl, ◌∙◌, false, ◌||◌, List, [], ◌∷◌, Option, some, String, arith,
  ◌==◌, nat_eq, leb, contains,
}
use openbao_plugin_secrets_s.Records.{Stamp, MetadataRecord, VersionMetadata}
use openbao_plugin_secrets_s.Storage.{
  version_key, metadata_key, metadata_value, Value, Contents, Env,
}
use openbao_plugin_secrets_s.Storage.Keeps.{Keeps, Keeps-bind, Keeps-if, Keeps-pure, Keeps-delete}
use openbao_plugin_secrets_s.Storage.Triples.{
  Triple, Triple-bind, Triple-if, Triple-pure, Triple-put, Triple-then, update_same, update_other,
  Ignores-at,
}
use openbao_plugin_secrets_s.Source.Frame.{
  is_metadata_key, Keeps-put_metadata_only, Keeps-queued_upsert_versions_for_path,
}
use openbao_plugin_secrets_s.Source.{
  prune_versions, prune_excess_versions, commit_source_metadata, delete_version, put_metadata,
}

not_le_of_leb : (a b : ℕ) → leb a b ≡ false → b < a
not_le_of_leb a b h = ground arith

version_key_number : (p q : String) (m n : ℕ) → version_key p m ≡ version_key q n → m ≡ n
version_key_number p q m n e = cc e

not_earlier : (keep_from k n : ℕ) → keep_from ≤ n → leb keep_from k ≡ false → ¬ (k ≡ n)
not_earlier keep_from k n le early e = omega (arith, e, le, not_le_of_leb keep_from k early)

not_kept :
    (keep_from k : ℕ) (protected : List ℕ)
    → (leb keep_from k || contains protected k) ≡ false
    → leb keep_from k ≡ false
not_kept keep_from k protected h = ground arith

kept_from :
    (current limit n : ℕ)
    → current ≡ n
    → (limit == 0 || current == 0) ≡ false
    → leb current limit ≡ false
    → current - limit + 1 ≤ n
kept_from current limit n e limited more = ground arith

module _ ⦃env : Env⦄ (path : String) (n : ℕ) (o : Option Value) where
  abbrev Holds : Contents → Type 0
  Holds c = c (version_key path n) ≡ o

  Keeps-delete_earlier :
      (keep_from k : ℕ)
      → keep_from ≤ n
      → leb keep_from k ≡ false
      → Keeps Holds (delete_version path k)
  unfolding delete_version
  Keeps-delete_earlier keep_from k le early = Keeps-delete (version_key path k) λ c h.
      update_other c (version_key path k) (version_key path n) _
        (λ e. not_earlier keep_from k n le early (version_key_number path path k n e))
      ∙ h

  -- Versions from `keep_from` on are not deleted.
  Keeps-prune_versions :
      (keep_from : ℕ) (protected : List ℕ) (vs : List (ℕ × VersionMetadata))
      → keep_from ≤ n
      → Keeps Holds (prune_versions path keep_from protected vs)
  unfolding prune_versions
  Keeps-prune_versions keep_from protected [] le = Keeps-pure []
  Keeps-prune_versions keep_from protected ((k, v) ∷ rest) le =
      let others = Keeps-prune_versions keep_from protected rest le in
      Keeps-if (leb keep_from k || contains protected k) _ _
        (λ _. Keeps-bind _ _ others λ kept. Keeps-pure _)
        λ e.
          Keeps-bind _ _ (Keeps-delete_earlier keep_from k le (not_kept keep_from k protected e))
            λ _. others

  Keeps-prune_excess_versions :
      (m : MetadataRecord) → m.current_version ≡ n → Keeps Holds (prune_excess_versions path m)
  unfolding prune_excess_versions
  Keeps-prune_excess_versions m current =
      Keeps-if (m.max_versions == 0 || m.current_version == 0) _ _ (λ _. Keeps-pure m)
        λ limited.
          Keeps-if (leb m.current_version m.max_versions) _ _ (λ _. Keeps-pure _)
            λ more. Keeps-bind _ _ (Keeps-queued_upsert_versions_for_path path) λ protected.
              Keeps-bind _ _
                (Keeps-prune_versions _ protected m.versions
                  (kept_from m.current_version m.max_versions n current limited more))
                λ kept. Keeps-pure _

  pub Keeps-commit_current :
      (m : MetadataRecord) (now : Stamp) → Keeps Holds (commit_source_metadata path m n now)
  unfolding commit_source_metadata
  Keeps-commit_current m now = Keeps-bind _ _ (Keeps-prune_excess_versions _ refl) λ pruned.
      Keeps-put_metadata_only (Ignores-at is_metadata_key (version_key path n) (λ w. w ≡ o) refl)
        path pruned

-- The stored metadata of the path has this version for its current one.
abbrev pub IsCurrent : String → ℕ → Contents → Type 0
IsCurrent path n c =
    (m : MetadataRecord) × (c (metadata_key path) ≡ some (metadata_value m))
    × (m.current_version ≡ n)

module _ ⦃env : Env⦄ (path : String) (n : ℕ) (o : Option Value) where
  Triple-prune_current :
      (m : MetadataRecord)
      → m.current_version ≡ n
      → Triple
          (Holds path n o)
          (prune_excess_versions path m)
          (λ pruned c. Holds path n o c × (pruned.current_version ≡ n))
          (Holds path n o)
  unfolding prune_excess_versions
  Triple-prune_current m current =
      Triple-if (m.max_versions == 0 || m.current_version == 0) _ _
        (λ _. Triple-pure m (λ c h. (h, current)))
        λ limited.
          Triple-if (leb m.current_version m.max_versions) _ _
            (λ _. Triple-pure _ (λ c h. (h, current)))
            λ more.
              Triple-then _ _ (Keeps-queued_upsert_versions_for_path path) (λ c h. h)
                λ protected.
                  Triple-then _ _
                    (Keeps-prune_versions path n o _ protected m.versions
                      (kept_from m.current_version m.max_versions n current limited more))
                    (λ c h. h) λ kept. Triple-pure _ (λ c h. (h, current))

  pub Triple-commit-IsCurrent :
      (m : MetadataRecord) (now : Stamp)
      → Triple
          (λ c. c (version_key path n) ≡ o)
          (commit_source_metadata path m n now)
          (λ _ c. (c (version_key path n) ≡ o) × IsCurrent path n c)
          (λ c. c (version_key path n) ≡ o)
  unfolding commit_source_metadata put_metadata
  Triple-commit-IsCurrent m now = Triple-bind _ _ _ (Triple-prune_current _ refl) λ pruned.
      Triple-put (metadata_key path) (metadata_value pruned) _ _ λ c h.
        let kept =
          Ignores-at is_metadata_key (version_key path n) (λ w. w ≡ o) refl c _ _ refl h.0 in
        (
          (kept, (pruned, update_same c (metadata_key path) (some (metadata_value pruned)), h.1)),
          h.0,
          kept,
        )
