-- ===== src/Operations.antt =====
-- internal/backend/enqueue.go and storage_records.go: the operations of a change, their identities, and
-- the intent that lists them.
use openbao_plugin_secrets_s.Prelude.{
  ℕ, Bool, ◌&&◌, List, [], ◌∷◌, ◌++◌, Option, none, some, String, ◌==◌, ◌!=◌, if◌then◌else◌,
  string_eq, nat_eq, map,
}
use Prim.Native.String.{◌++◌ as string_append}
use openbao_plugin_secrets_s.Records.{
  Stamp, blank, OperationType, upsert, delete, unknown_type, is_upsert, pending, OutboxRecord,
  EnqueueIntentOperation, EnqueueIntentRecord, AssociationRecord, SecretPayload,
}
use openbao_plugin_secrets_s.Storage.{option}
use openbao_plugin_secrets_s.Text.{itoa}
use openbao_plugin_secrets_s.Naming.{normalized_delete_mode}
use openbao_plugin_secrets_s.Payload.{Codec, association_object_ids}
use openbao_plugin_secrets_s.Associations.{unique_sorted_strings}

pub record AssociationOutboxOptions : Type 0 where
  pub operation_type : OperationType
  pub trigger : String
  pub salt : String
  pub require_delete_mode : Bool

abbrev operation_type_text : OperationType → String
operation_type_text upsert = "upsert"
operation_type_text delete = "delete"
operation_type_text (unknown_type t) = t

-- The fields of the raw identity, with a colon between them.
abbrev joined : List String → String
joined [] = ""
joined (s ∷ []) = s
joined (s ∷ t ∷ ts) = string_append s (string_append ":" (joined (t ∷ ts)))

module _ ⦃codec : Codec⦄ where
  hashed_id : String → ℕ → String
  hashed_id raw version =
      string_append "op-"
        (string_append (codec.operation_digest raw) (string_append "-" (itoa version)))

  new_operation_id : String → String → ℕ → String → String → OperationType → String
  new_operation_id generation path version association_id object_id type =
      hashed_id
        (joined (
          generation
          ∷ path
          ∷ itoa version
          ∷ association_id
          ∷ object_id
          ∷ operation_type_text type
          ∷ []))
        version

  new_operation_id_with_salt :
      String → String → ℕ → String → String → OperationType → String → String
  new_operation_id_with_salt generation path version association_id object_id type salt =
      hashed_id
        (joined (
          generation
          ∷ path
          ∷ itoa version
          ∷ association_id
          ∷ object_id
          ∷ operation_type_text type
          ∷ salt
          ∷ []))
        version

operation_idempotency_key : String → String → ℕ → String → String → OperationType → String
operation_idempotency_key generation path version association_id object_id type =
    joined (
      generation ∷ path ∷ itoa version ∷ association_id ∷ object_id ∷ operation_type_text type ∷ [])

module _ ⦃codec : Codec⦄ where
  unfoldable pub new_association_outbox_record :
      AssociationRecord → String → ℕ → String → Stamp → AssociationOutboxOptions → OutboxRecord
  unfolding new_operation_id new_operation_id_with_salt hashed_id operation_idempotency_key
  new_association_outbox_record r generation version object_id now options = record {
    id =
        if options.salt == ""
        then new_operation_id generation r.path version r.id object_id options.operation_type
        else new_operation_id_with_salt generation r.path version r.id object_id
            options.operation_type options.salt;
    type = options.operation_type;
    path = r.path;
    version = version;
    association_id = r.id;
    object_id = object_id;
    destination_ref = r.destination_ref;
    state = pending;
    attempts = 0;
    not_before = now;
    created_time = now;
    updated_time = now;
    idempotency_key =
        let key =
          operation_idempotency_key generation r.path version r.id object_id
            options.operation_type in
        if options.salt == "" then key else string_append key (string_append ":" options.salt);
    trigger = options.trigger;
    claim_owner = "";
    claim_expires_time = blank;
    claim_attempt = 0;
  }

  -- The nested loops of `newAssociationOutboxRecords`; `none` is its error.
  unfoldable pub new_association_outbox_records :
      List AssociationRecord
      → String
      → ℕ
      → SecretPayload
      → Stamp
      → AssociationOutboxOptions
      → Option (List OutboxRecord)
  new_association_outbox_records [] generation version payload now options = some []
  new_association_outbox_records (r ∷ rs) generation version payload now options =
      let others = new_association_outbox_records rs generation version payload now options in
      if options.require_delete_mode && normalized_delete_mode r.delete_mode != "delete"
      then others
      else option (association_object_ids r payload) none λ ids. option others none λ rest.
        some (
          map (λ id. new_association_outbox_record r generation version id now options) ids ++ rest)

abbrev pub operation_ids : List OutboxRecord → List String
operation_ids = map λ r. r.id

-- The keys of `targetVersions`: association and object.
unfoldable pub target_version : String → String → List OutboxRecord → Option ℕ
target_version association_id object_id [] = none
target_version association_id object_id (r ∷ rs) =
    option (target_version association_id object_id rs)
      (if is_upsert r.type && r.association_id == association_id && r.object_id == object_id
        then some r.version
        else none)
      some

-- The path of the first upsert whose path is not empty.
unfoldable pub upsert_path : List OutboxRecord → Option String
upsert_path [] = none
upsert_path (r ∷ rs) =
    let later = upsert_path rs in if is_upsert r.type && r.path != "" then some r.path else later

abbrev pub enqueue_intent_operation : OutboxRecord → EnqueueIntentOperation
enqueue_intent_operation r = record {
  id = r.id;
  type = r.type;
  association_id = r.association_id;
  object_id = r.object_id;
  destination_ref = r.destination_ref;
  not_before = r.not_before;
  idempotency_key = r.idempotency_key;
  trigger = r.trigger;
}

unfoldable pub new_enqueue_intent_record :
    String → String → ℕ → List OutboxRecord → List String → Stamp → EnqueueIntentRecord
new_enqueue_intent_record path generation version operations cancel_ids now = record {
  path = path;
  generation = generation;
  version = version;
  operations = map enqueue_intent_operation operations;
  cancel_operation_ids = unique_sorted_strings cancel_ids;
  created_time = now;
  updated_time = now;
}
