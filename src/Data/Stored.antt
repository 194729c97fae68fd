-- ===== src/Data/Stored.antt =====
-- Writes of a source secret, and the reads after them (path_data.go).
use openbao_plugin_secrets_s.Prelude.{
  ◌⊎◌, arith, ℕ, ◌≡◌, ◌≢◌, refl, sym, ap, ◌∙◌, Bool, false, Option, none, some, String, ◌==◌,
  nat_eq, if◌then◌else◌,
}
use openbao_plugin_secrets_s.Records.{blank, VersionRecord, MetadataRecord, SecretPayload}
use openbao_plugin_secrets_s.Storage.{
  Key, version_key, metadata_key, version_value, metadata_value, Contents, Env, ◌>>◌, pure, option,
}
use openbao_plugin_secrets_s.Storage.Triples.{
  Triple, Triple-bind, Triple-then, Triple-pure, Triple-if, Triple-weaken, Triple-given,
  Triple-Keeps, Ignores, Ignores-at, update_same,
}
use openbao_plugin_secrets_s.Storage.Reading.{Found}
use openbao_plugin_secrets_s.Outbox.Records.Frame.{is_outbox_key}
use openbao_plugin_secrets_s.Outbox.Listing.Frame.{Keeps-cancel_queued_outbox_ids}
use openbao_plugin_secrets_s.Payload.{Codec}
use openbao_plugin_secrets_s.Source.Current.{IsCurrent, Triple-commit-IsCurrent}
use openbao_plugin_secrets_s.Source.Intents.{is_enqueue_intent_key}
use openbao_plugin_secrets_s.Source.Reads.{
  Triple-put_version, Triple-get_version, Triple-get_metadata,
}
use openbao_plugin_secrets_s.Source.{normalize_metadata_defaults}
use openbao_plugin_secrets_s.Enqueue.Frame.{
  Keeps-ensure_queue_capacity_after_replacement, Keeps-additional_queued_operation_count,
  Keeps-stale_queued_upsert_ids_for_operations, Keeps-put_outbox_records,
  Keeps-put_pending_enqueue_intent, Keeps-complete_enqueue_intent,
}
use openbao_plugin_secrets_s.Data.Durability.{Keeps-put_associations}
use openbao_plugin_secrets_s.Data.{
  DataWritePlan, commit_data_write_plan, put_source_version_record, data_read, read_version,
  live_version,
}

-- The record of the version that a write stores.
abbrev pub written : SecretPayload → DataWritePlan → VersionRecord
written payload plan = record {
  version = plan.next_version;
  created_time = plan.now;
  payload = payload;
  deletion_time = blank;
  destroyed = false;
}

-- The version is stored, and it is the current one of the path.
abbrev pub IsLatest : String → VersionRecord → Contents → Type 0
IsLatest path v c =
    (c (version_key path v.version) ≡ some (version_value v)) × IsCurrent path v.version c

Ignores-IsLatest :
    (T : Key → Bool) (path : String) (v : VersionRecord)
    → T (version_key path v.version) ≡ false
    → T (metadata_key path) ≡ false
    → Ignores T (IsLatest path v)
Ignores-IsLatest T path v p q c k w e h = (
  Ignores-at T (version_key path v.version) (λ o. o ≡ some (version_value v)) p c k w e h.0,
  Ignores-at T (metadata_key path)
      (λ o. (m : MetadataRecord) × (o ≡ some (metadata_value m)) × (m.current_version ≡ v.version))
      q c k w e h.1,
)

abbrev Anything : Contents → Type 0
Anything c = Unit {0}

abbrev CurrentIs : ℕ → Option MetadataRecord → Type 0
CurrentIs n none = ⊥
CurrentIs n (some m) = m.current_version ≡ n

asked_version :
    (asked current n : ℕ)
    → (asked ≡ 0) ⊎ (asked ≡ n)
    → current ≡ n
    → (if asked == 0 then current else asked) ≡ n
asked_version asked current n which e = ground arith

live_of_read :
    ⦃env : Env⦄ {path : String} (v : VersionRecord) (o : Option VersionRecord) (c : Contents)
    (k : ℕ)
    → k ≡ v.version
    → c (version_key path v.version) ≡ some (version_value v)
    → Found version_value (λ r. r) (version_key path k) o c
    → live_version (some v) ≡ some v
    → live_version o ≡ some v
live_of_read {path = path} v none c k e stored f live = cc (stored, f, ap (version_key path) e)
live_of_read {path = path} v (some x) c k e stored (y, p, f) live =
    let same : x ≡ v = cc (p, stored, f, ap (version_key path) e) in
    ap (λ z. live_version (some z)) same ∙ live

module _ ⦃env : Env⦄ ⦃codec : Codec⦄ (path : String) (payload : SecretPayload)
    (plan : DataWritePlan) where
  Triple-commit-IsLatest :
      Triple Anything
        (commit_data_write_plan path payload plan)
        (λ _. IsLatest path (written payload plan))
        Anything
  unfolding commit_data_write_plan put_source_version_record
  Triple-commit-IsLatest =
      let v = written payload plan in
      let outbox = Ignores-IsLatest is_outbox_key path v refl refl in
      Triple-then _ _ (Keeps-stale_queued_upsert_ids_for_operations _ _) (λ c h. tt)
        λ stale.
          Triple-then _ _ (Keeps-additional_queued_operation_count _) (λ c h. tt)
            λ additional.
              Triple-then _ _ (Keeps-ensure_queue_capacity_after_replacement _ _) (λ c h. tt)
                λ _.
                  Triple-then _ _ (Keeps-put_associations Anything (λ c k w e h. tt) _) (λ c h. tt)
                    λ _.
                      Triple-then _ _
                        (Keeps-put_pending_enqueue_intent (λ c k w e h. tt) _ _ _ _ _ _) (λ c h. tt)
                        λ _.
                          Triple-bind
                            (λ _ c. c (version_key path v.version) ≡ some (version_value v)) _ _
                            (Triple-put_version path v _ Anything λ c h. (
                              update_same c (version_key path v.version) (some (version_value v)),
                              tt,
                              tt,
                            ))
                            λ _.
                              Triple-bind (λ _. IsLatest path v) _ _
                                (Triple-weaken _
                                  (Triple-commit-IsCurrent path v.version (some (version_value v))
                                    plan.metadata plan.now)
                                  (λ c h. h) (λ _ c h. h) (λ c h. tt))
                                λ _.
                                  Triple-then _ _ (Keeps-cancel_queued_outbox_ids outbox stale)
                                    (λ c h. tt)
                                    λ _.
                                      Triple-then _ _ (Keeps-put_outbox_records outbox _)
                                        (λ c h. tt)
                                        λ _.
                                          Triple-Keeps _
                                            (Keeps-complete_enqueue_intent
                                              (Ignores-IsLatest is_enqueue_intent_key path v refl
                                                refl)
                                              _ _ _)
                                            (λ _ c h. h) (λ c h. tt)

  -- What a read of the latest version, or of this one, makes of the metadata that it finds.
  read_found_version :
      (v : VersionRecord) (asked : ℕ) (m : MetadataRecord)
      → v.version ≢ 0
      → (asked ≡ 0) ⊎ (asked ≡ v.version)
      → m.current_version ≡ v.version
      → live_version (some v) ≡ some v
      → Triple
          (λ c. c (version_key path v.version) ≡ some (version_value v))
          (read_version path asked m)
          (λ r c. r ≡ some v)
          Anything
  unfolding read_version
  read_found_version v asked m positive which current live =
      Triple-if (m.current_version == 0) _ _
        (λ e. absurd (positive (sym current ∙ (nat_eq.same_iff m.current_version 0).0 e)))
        λ _.
          Triple-bind (λ o c. live_version o ≡ some v) _ _
            (Triple-weaken _
              (Triple-get_version (λ c. c (version_key path v.version) ≡ some (version_value v))
                path (if asked == 0 then m.current_version else asked))
              (λ c h. h)
              (λ o c h.
                live_of_read v o c _ (asked_version asked m.current_version v.version which current)
                  h.0 h.1 live)
              (λ c h. tt))
            λ o. Triple-pure _ (λ c h. h)

  Found-current :
      (v : VersionRecord) (o : Option MetadataRecord) (c : Contents)
      → IsCurrent path v.version c
      → Found metadata_value normalize_metadata_defaults (metadata_key path) o c
      → CurrentIs v.version o
  Found-current v none c (m, e, q) f = cc (e, f)
  Found-current v (some x) c (m, e, q) (y, p, f) =
      let same : y ≡ m = cc (e, f) in
      ap (λ (z : MetadataRecord). z.current_version) p
      ∙ (ap (λ (z : MetadataRecord). z.current_version) same ∙ q)

  read_latest :
      (v : VersionRecord) (asked : ℕ) (o : Option MetadataRecord)
      → v.version ≢ 0
      → (asked ≡ 0) ⊎ (asked ≡ v.version)
      → live_version (some v) ≡ some v
      → CurrentIs v.version o
      → Triple
          (λ c. c (version_key path v.version) ≡ some (version_value v))
          (option o (pure none) (read_version path asked))
          (λ r c. r ≡ some v)
          Anything
  read_latest v asked none positive which live h = absurd h
  read_latest v asked (some m) positive which live h =
      read_found_version v asked m positive which h live

  -- After a write of a version other than 0, a read of the path that asks for the latest version, or
  -- for that one, gives the record with the payload written, if both calls return.
  pub data_read-commit_data_write_plan :
      (asked : ℕ)
      → plan.next_version ≢ 0
      → (asked ≡ 0) ⊎ (asked ≡ plan.next_version)
      → Triple
          (λ c. Unit {0})
          (do commit_data_write_plan path payload plan; data_read path asked)
          (λ r c. r ≡ some (written payload plan))
          (λ c. Unit {0})
  unfolding data_read
  data_read-commit_data_write_plan asked positive which =
      let v = written payload plan in
      Triple-bind _ _ _ Triple-commit-IsLatest λ _.
        Triple-bind
          (λ o c. (c (version_key path v.version) ≡ some (version_value v)) × CurrentIs v.version o)
          _ _
          (Triple-weaken _ (Triple-get_metadata (IsLatest path v) path) (λ c h. h)
            (λ o c h. (h.0.0, Found-current v o c h.0.1 h.1)) (λ c h. tt))
          λ o.
            Triple-given (CurrentIs v.version o) _
              λ current. read_latest v asked o positive which refl current
