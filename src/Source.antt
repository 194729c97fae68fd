-- ===== src/Source.antt =====
-- internal/backend/storage_source.go: versions, metadata and enqueue intents of a source path.
pub mod Current
pub mod Reads
pub mod Intents
pub mod Frame
use openbao_plugin_secrets_s.Prelude.{
  ℕ, suc, ◌+◌, ◌-◌, Bool, true, false, ◌||◌, List, [], ◌∷◌, Option, none, some, String, ◌==◌,
  if◌then◌else◌, nat_eq, string_eq, ltb, leb, contains, map, keep_if, to_bool,
}
use openbao_plugin_secrets_s.Records.{
  Stamp, blank, OutboxRecord, OutboxState-discrete, failed_terminal, VersionRecord, VersionMetadata,
  MetadataRecord, EnqueueIntentRecord, SecretPayload, is_upsert, StatusRecord,
}
use openbao_plugin_secrets_s.Storage.{
  metadata_key, version_key, enqueue_intent_key, Value, metadata_value, version_value, intent_value,
  Error, decode_failed, Env, M, ◌>>=◌, ◌>>◌, pure, throw, option, get_entry, put_entry,
  delete_entry,
}
use openbao_plugin_secrets_s.Outbox.Records.{get_outbox, delete_outbox}
use openbao_plugin_secrets_s.Outbox.Listing.{
  sort_by, list_outbox_ids_for_state, list_queued_outbox_ids_for_path,
}
use openbao_plugin_secrets_s.Status.{list_status_records_for_path, delete_status}

abbrev pub default_max_versions : ℕ
default_max_versions = 10

abbrev pub default_delete_version_after : String
default_delete_version_after = "0s"

abbrev pub normalize_metadata_defaults : MetadataRecord → MetadataRecord
normalize_metadata_defaults m = record m {
  max_versions = if m.max_versions == 0 then default_max_versions else m.max_versions;
  delete_version_after =
      if m.delete_version_after == "" then default_delete_version_after else m.delete_version_after;
}

-- `newMetadataRecord`, given the random generation.
unfoldable pub new_metadata_record : String → MetadataRecord
new_metadata_record generation = record {
  generation = generation;
  current_version = 0;
  oldest_version = 0;
  max_versions = default_max_versions;
  cas_required = false;
  delete_version_after = default_delete_version_after;
  source_sync_enabled = false;
  custom_metadata = [];
  versions = [];
  updated_time = blank;
}

-- The Go map `Versions`: read with the zero value for a missing key, and write.
unfoldable pub version_metadata_at : ℕ → List (ℕ × VersionMetadata) → VersionMetadata
version_metadata_at n [] = record { created_time = blank; deletion_time = blank; destroyed = false }
version_metadata_at n ((k, v) ∷ rest) = if k == n then v else version_metadata_at n rest

unfoldable pub set_version_metadata :
    ℕ → VersionMetadata → List (ℕ × VersionMetadata) → List (ℕ × VersionMetadata)
set_version_metadata n w [] = (n, w) ∷ []
set_version_metadata n w ((k, v) ∷ rest) =
    if k == n then (k, w) ∷ rest else (k, v) ∷ set_version_metadata n w rest

abbrev pub version_number : ℕ × VersionMetadata → ℕ
version_number e = e.0

unfoldable pub metadata_version_numbers : MetadataRecord → List ℕ
unfolding sort_by
metadata_version_numbers m = sort_by ltb (map version_number m.versions)

abbrev pub head_or_zero : List ℕ → ℕ
head_or_zero [] = 0
head_or_zero (n ∷ _) = n

unfoldable pub oldest_metadata_version : MetadataRecord → ℕ
unfolding metadata_version_numbers
oldest_metadata_version m = head_or_zero (metadata_version_numbers m)

module _ ⦃env : Env⦄ where
  abbrev decode_metadata : Value → M MetadataRecord
  decode_metadata (metadata_value m) = pure m
  decode_metadata _ = throw decode_failed

  pub get_metadata : String → M (Option MetadataRecord)
  get_metadata path = do
    entry ← get_entry (metadata_key path)
    option entry (pure none)
        λ v. do m ← decode_metadata v; pure (some (normalize_metadata_defaults m))

  pub put_metadata : String → MetadataRecord → M (Unit {0})
  put_metadata path m = put_entry (metadata_key path) (metadata_value m)

  pub delete_metadata : String → M (Unit {0})
  delete_metadata path = delete_entry (metadata_key path)

  abbrev decode_version : Value → M VersionRecord
  decode_version (version_value v) = pure v
  decode_version _ = throw decode_failed

  pub get_version : String → ℕ → M (Option VersionRecord)
  get_version path version = do
    entry ← get_entry (version_key path version)
    option entry (pure none) λ v. do r ← decode_version v; pure (some r)

  pub put_version : String → VersionRecord → M (Unit {0})
  put_version path r = put_entry (version_key path r.version) (version_value r)

  pub delete_version : String → ℕ → M (Unit {0})
  delete_version path version = delete_entry (version_key path version)

  abbrev decode_intent : Value → M EnqueueIntentRecord
  decode_intent (intent_value i) = pure i
  decode_intent _ = throw decode_failed

  pub put_enqueue_intent : EnqueueIntentRecord → M (Unit {0})
  put_enqueue_intent i = put_entry (enqueue_intent_key i.path i.version) (intent_value i)

  pub get_enqueue_intent : String → ℕ → M (Option EnqueueIntentRecord)
  get_enqueue_intent path version = do
    entry ← get_entry (enqueue_intent_key path version)
    option entry (pure none) λ v. do i ← decode_intent v; pure (some i)

  pub delete_enqueue_intent : String → ℕ → M (Unit {0})
  delete_enqueue_intent path version = delete_entry (enqueue_intent_key path version)

  abbrev cons_intent :
      Option EnqueueIntentRecord → List EnqueueIntentRecord → List EnqueueIntentRecord
  cons_intent none is = is
  cons_intent (some i) is = i ∷ is

  read_intents : List (String × ℕ) → M (List EnqueueIntentRecord)
  read_intents [] = pure []
  read_intents ((path, version) ∷ keys) = do
    i ← get_enqueue_intent path version
    rest ← read_intents keys
    pure (cons_intent i rest)

  pub list_enqueue_intents : M (List EnqueueIntentRecord)
  list_enqueue_intents = do keys ← env.collect_intents; read_intents keys

  abbrev add_upsert_version : Option OutboxRecord → List ℕ → List ℕ
  add_upsert_version none vs = vs
  add_upsert_version (some r) vs = if is_upsert r.type then r.version ∷ vs else vs

  upsert_versions : List String → M (List ℕ)
  upsert_versions [] = pure []
  upsert_versions (id ∷ ids) = do
    r ← get_outbox id
    rest ← upsert_versions ids
    pure (add_upsert_version r rest)

  pub queued_upsert_versions_for_path : String → M (List ℕ)
  queued_upsert_versions_for_path path = do
    ids ← list_queued_outbox_ids_for_path path
    upsert_versions ids

  -- The loop over the map: what stays in it.
  unfoldable pub prune_versions :
      String → ℕ → List ℕ → List (ℕ × VersionMetadata) → M (List (ℕ × VersionMetadata))
  prune_versions path keep_from protected [] = pure []
  prune_versions path keep_from protected ((n, v) ∷ rest) =
      let others = prune_versions path keep_from protected rest in
      if leb keep_from n || contains protected n
      then (do kept ← others; pure ((n, v) ∷ kept))
      else do delete_version path n; others

  -- `keepFrom <= 1` on Go's ints is `current <= max`.
  pub prune_excess_versions : String → MetadataRecord → M MetadataRecord
  prune_excess_versions path m =
      if m.max_versions == 0 || m.current_version == 0
      then pure m
      else if leb m.current_version m.max_versions
      then pure (record m { oldest_version = oldest_metadata_version m })
      else do
        protected ← queued_upsert_versions_for_path path
        kept ← prune_versions path (m.current_version - m.max_versions + 1) protected m.versions
        pure (record m {
          versions = kept;
          oldest_version = oldest_metadata_version (record m { versions = kept });
        })

  -- `commitSourceMetadata` of path_data.go.
  pub commit_source_metadata : String → MetadataRecord → ℕ → Stamp → M (Unit {0})
  commit_source_metadata path m next_version now = do
    pruned ← prune_excess_versions path (record m {
      oldest_version = if m.oldest_version == 0 then next_version else m.oldest_version;
      current_version = next_version;
      updated_time = now;
      versions =
          set_version_metadata next_version
            (record { created_time = now; deletion_time = blank; destroyed = false }) m.versions;
    })
    put_metadata path pruned

  abbrev delete_if_of_path : String → Option OutboxRecord → M (Unit {0})
  delete_if_of_path path none = pure tt
  delete_if_of_path path (some r) = if r.path == path then delete_outbox r else pure tt

  delete_terminal_of_path : String → List String → M (Unit {0})
  delete_terminal_of_path path [] = pure tt
  delete_terminal_of_path path (id ∷ ids) = do
    r ← get_outbox id
    delete_if_of_path path r
    delete_terminal_of_path path ids

  delete_versions : String → List ℕ → M (Unit {0})
  delete_versions path [] = pure tt
  delete_versions path (n ∷ ns) = do delete_version path n; delete_versions path ns

  delete_statuses : List StatusRecord → M (Unit {0})
  delete_statuses [] = pure tt
  delete_statuses (r ∷ rs) = do delete_status r; delete_statuses rs

  pub delete_source_path : String → M (Unit {0})
  delete_source_path path = do
    terminal ← list_outbox_ids_for_state failed_terminal
    delete_terminal_of_path path terminal
    versions ← env.list_versions path
    delete_versions path versions
    statuses ← list_status_records_for_path path
    delete_statuses statuses
    delete_metadata path
