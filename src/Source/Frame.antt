-- ===== src/Source/Frame.antt =====
-- The reads and writes of storage_source.go and the keys that they may touch.
use openbao_plugin_secrets_s.Prelude.{
  ℕ, refl, ◌||◌, Bool, true, false, List, [], ◌∷◌, none, String, ◌==◌, nat_eq, leb, contains,
}
use openbao_plugin_secrets_s.Records.{Stamp, VersionRecord, MetadataRecord, VersionMetadata}
use openbao_plugin_secrets_s.Storage.{
  Key, version_key, metadata_key, version_value, metadata_value, Value, decode_failed, Contents,
  Env,
}
use openbao_plugin_secrets_s.Storage.Keeps.{
  Keeps, Keeps-throw, Keeps-get, Keeps-bind, Keeps-if, Keeps-pure, Keeps-option,
}
use openbao_plugin_secrets_s.Storage.Triples.{Ignores, Keeps-put_ignored, Keeps-delete_ignored}
use openbao_plugin_secrets_s.Outbox.Records.Frame.{Keeps-get_outbox}
use openbao_plugin_secrets_s.Outbox.Listing.Frame.{Keeps-list_queued_outbox_ids_for_path}
use openbao_plugin_secrets_s.Source.{
  put_version, put_metadata, delete_version, prune_versions, prune_excess_versions,
  commit_source_metadata, queued_upsert_versions_for_path, upsert_versions, decode_metadata,
  get_metadata, get_version, decode_version,
}

abbrev pub is_source_key : Key → Bool
is_source_key (version_key _ _) = true
is_source_key (metadata_key _) = true
is_source_key _ = false

module _ ⦃env : Env⦄ {I : Contents → Type 0} where
  Keeps-decode_metadata : (v : Value) → Keeps I (decode_metadata v)
  Keeps-decode_metadata (metadata_value m) = Keeps-pure m
  Keeps-decode_metadata _ = Keeps-throw decode_failed

  pub Keeps-get_metadata : (path : String) → Keeps I (get_metadata path)
  unfolding get_metadata
  Keeps-get_metadata path = Keeps-bind _ _ (Keeps-get (metadata_key path)) λ entry.
      Keeps-option entry _ _ (Keeps-pure none)
        λ v. Keeps-bind _ _ (Keeps-decode_metadata v) λ m. Keeps-pure _

  Keeps-decode_version : (v : Value) → Keeps I (decode_version v)
  Keeps-decode_version (version_value r) = Keeps-pure r
  Keeps-decode_version _ = Keeps-throw decode_failed

  pub Keeps-get_version : (path : String) (n : ℕ) → Keeps I (get_version path n)
  unfolding get_version
  Keeps-get_version path n = Keeps-bind _ _ (Keeps-get (version_key path n)) λ entry.
      Keeps-option entry _ _ (Keeps-pure none)
        λ v. Keeps-bind _ _ (Keeps-decode_version v) λ r. Keeps-pure _

  Keeps-upsert_versions : (ids : List String) → Keeps I (upsert_versions ids)
  unfolding upsert_versions
  Keeps-upsert_versions [] = Keeps-pure []
  Keeps-upsert_versions (id ∷ ids) =
      Keeps-bind _ _ (Keeps-get_outbox id)
        λ r. Keeps-bind _ _ (Keeps-upsert_versions ids) λ rest. Keeps-pure _

  pub Keeps-queued_upsert_versions_for_path :
      (path : String) → Keeps I (queued_upsert_versions_for_path path)
  unfolding queued_upsert_versions_for_path
  Keeps-queued_upsert_versions_for_path path =
      Keeps-bind _ _ (Keeps-list_queued_outbox_ids_for_path path) λ ids. Keeps-upsert_versions ids

module _ ⦃env : Env⦄ {I : Contents → Type 0} (g : Ignores is_source_key I) where
  pub Keeps-put_version : (path : String) (r : VersionRecord) → Keeps I (put_version path r)
  unfolding put_version
  Keeps-put_version path r = Keeps-put_ignored is_source_key g _ _ refl

  pub Keeps-put_metadata : (path : String) (m : MetadataRecord) → Keeps I (put_metadata path m)
  unfolding put_metadata
  Keeps-put_metadata path m = Keeps-put_ignored is_source_key g _ _ refl

  Keeps-delete_version : (path : String) (n : ℕ) → Keeps I (delete_version path n)
  unfolding delete_version
  Keeps-delete_version path n = Keeps-delete_ignored is_source_key g _ refl

  Keeps-prune_versions :
      (path : String) (keep_from : ℕ) (protected : List ℕ) (vs : List (ℕ × VersionMetadata))
      → Keeps I (prune_versions path keep_from protected vs)
  unfolding prune_versions
  Keeps-prune_versions path keep_from protected [] = Keeps-pure []
  Keeps-prune_versions path keep_from protected ((n, v) ∷ rest) =
      let others = Keeps-prune_versions path keep_from protected rest in
      Keeps-if (leb keep_from n || contains protected n) _ _
        (λ _. Keeps-bind _ _ others λ kept. Keeps-pure _)
        λ _. Keeps-bind _ _ (Keeps-delete_version path n) λ _. others

  Keeps-prune_excess_versions :
      (path : String) (m : MetadataRecord) → Keeps I (prune_excess_versions path m)
  unfolding prune_excess_versions
  Keeps-prune_excess_versions path m =
      Keeps-if (m.max_versions == 0 || m.current_version == 0) _ _ (λ _. Keeps-pure m)
        λ _.
          Keeps-if (leb m.current_version m.max_versions) _ _ (λ _. Keeps-pure _)
            λ _. Keeps-bind _ _ (Keeps-queued_upsert_versions_for_path path) λ protected.
              Keeps-bind _ _ (Keeps-prune_versions path _ protected m.versions) λ kept. Keeps-pure _

  pub Keeps-commit_source_metadata :
      (path : String) (m : MetadataRecord) (n : ℕ) (now : Stamp)
      → Keeps I (commit_source_metadata path m n now)
  unfolding commit_source_metadata
  Keeps-commit_source_metadata path m n now =
      Keeps-bind _ _ (Keeps-prune_excess_versions path _) λ pruned. Keeps-put_metadata path pruned

abbrev pub is_metadata_key : Key → Bool
is_metadata_key (metadata_key _) = true
is_metadata_key _ = false

pub Keeps-put_metadata_only :
    ⦃env : Env⦄ {I : Contents → Type 0}
    → Ignores is_metadata_key I
    → (path : String) (m : MetadataRecord) → Keeps I (put_metadata path m)
unfolding put_metadata
Keeps-put_metadata_only g path m = Keeps-put_ignored is_metadata_key g _ _ refl
