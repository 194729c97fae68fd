-- ===== src/Storage.antt =====
-- logical.Storage of the OpenBao SDK, the clock, and the decoding of stored entries.
--
-- The storage service is not part of the program: it is the parameter `Env`, with its documented
-- behaviour as laws. A key stands for the string that the source builds: `outbox id` is
-- "outbox/<id>", `outbox_by_due s id` is "outbox_by_due/<time>/<id>", and so on.
pub mod Transactions
pub mod Reading
pub mod Keeps
pub mod Triples
pub mod Faultless
use openbao_plugin_secrets_s.Prelude.{
  ℕ, ◌≤◌, ◌≡◌, refl, ◌⊎◌, ◌↔◌, Bool, true, false, List, [], ◌∷◌, Option, none, some, String, In,
  ℕ_discrete, string_discrete, to_bool, if◌then◌else◌,
}
use openbao_plugin_secrets_s.Records.{
  Stamp, OutboxState, OutboxState-discrete, OutboxRecord, StatusRecord, VersionRecord,
  MetadataRecord, EnqueueIntentRecord, AssociationRecord, DestinationRecord,
  DestinationSensitiveRecord, GlobalConfig, StorageSchemaRecord, RestoreEpochRecord,
}

pub data Key : Type 0 where
  config_key : Key
  metadata_key : String → Key
  version_key : String → ℕ → Key
  enqueue_intent_key : String → ℕ → Key
  destination_key : String → String → Key
  association_key : String → String → Key
  association_by_destination_key : String → String → String → Key
  association_name_key : String → String → String → Key
  outbox_key : String → Key
  outbox_by_path_key : String → String → Key
  outbox_by_state_key : OutboxState → String → Key
  outbox_by_due_key : ℕ → String → Key
  status_key : String → String → String → Key
  storage_schema_key : Key
  restore_epoch_key : Key
  destination_sensitive_key : String → String → Key
  destination_sensitive_version_key : String → String → String → Key

unfoldable pub Key-discrete : Discrete Key
unfolding ℕ_discrete string_discrete OutboxState-discrete
Key-discrete = hlevel (ℕ_discrete, string_discrete, OutboxState-discrete)

-- A stored entry. `garbage` is a value that decodes to none of the program's records.
pub data Value : Type 0 where
  config_value : GlobalConfig → Value
  metadata_value : MetadataRecord → Value
  version_value : VersionRecord → Value
  intent_value : EnqueueIntentRecord → Value
  destination_value : DestinationRecord → Value
  association_value : AssociationRecord → Value
  outbox_value : OutboxRecord → Value
  status_value : StatusRecord → Value
  schema_value : StorageSchemaRecord → Value
  epoch_value : RestoreEpochRecord → Value
  sensitive_value : DestinationSensitiveRecord → Value
  id_value : String → Value
  garbage : String → Value

abbrev pub Contents : Type 0
Contents = Key → Option Value

unfoldable pub update : Contents → Key → Option Value → Contents
update c k v j = if to_bool (Key-discrete k j) then v else c j

-- The directories that the program lists.
pub data Prefix : Type 0 where
  by_path : String → Prefix
  by_state : OutboxState → Prefix
  associations_of : String → Prefix
  reservations_of : String → String → Prefix
  destination_associations_of : String → String → Prefix
  sensitive_versions_of : String → String → Prefix

pub data Error : Type 0 where
  storage_failed : String → Error
  decode_failed : Error
  queued_operation_claimed : String → Error
  queue_full : ℕ → Error
  refused : String → Error

-- What a call returns, beside the state that it leaves, also when it fails.
pub data Result (S A : Type 0) : Type 0 where
  ok : A → S → Result S A
  err : Error → S → Result S A

abbrev pub left : {S A : Type 0} → Result S A → S
left (ok a t) = t
left (err e t) = t

-- What a read leaves: the contents, and on success the answer that they give.
abbrev pub Reads : {S A : Type 0} → (S → Contents) → Contents → (A → Type 0) → Result S A → Type 0
Reads contents c P (ok a t) = P a × (contents t ≡ c)
Reads contents c P (err e t) = contents t ≡ c

-- What a write of `d` over `c` leaves: on a failure it may have been applied or not.
abbrev pub Writes :
    {S : Type 0} → (S → Contents) → Contents → Contents → Result S (Unit {0}) → Type 0
Writes contents c d (ok _ t) = contents t ≡ d
Writes contents c d (err e t) = (contents t ≡ c) ⊎ (contents t ≡ d)

abbrev pub member_key : Prefix → String → Key
member_key (by_path p) id = outbox_by_path_key p id
member_key (by_state s) id = outbox_by_state_key s id
member_key (associations_of p) id = association_key p id
member_key (reservations_of r n) id = association_name_key r n id
member_key (destination_associations_of type name) id = association_by_destination_key type name id
member_key (sensitive_versions_of type name) version =
    destination_sensitive_version_key type name version

abbrev pub IsStored : Contents → Key → Type 0
IsStored c k = (v : Value) × (c k ≡ some v)

-- The service that the plugin runs on. Calls may fail at any time. A listing of a directory gives the
-- names that are stored there, and may give others, which are those of directories below it.
pub record Env : Type 1 where
  pub State : Type 0
  pub contents : State → Contents
  pub get : Key → State → Result State (Option Value)
  pub put : Key → Value → State → Result State (Unit {0})
  pub remove : Key → State → Result State (Unit {0})
  pub list : Prefix → State → Result State (List String)
  pub list_versions : String → State → Result State (List ℕ)
  pub list_status_keys : String → State → Result State (List (String × String))
  pub collect_due : State → Result State (List (ℕ × String))
  pub collect_intents : State → Result State (List (String × ℕ))
  pub collect_associations : State → Result State (List (String × String))
  pub now_utc : State → Result State ℕ
  pub random_id : State → Result State String
  pub get_lem :
      (k : Key) (s : State) → Reads contents (contents s) (λ v. v ≡ contents s k) (get k s)
  pub put_lem :
      (k : Key) (v : Value) (s : State)
      → Writes contents (contents s) (update (contents s) k (some v)) (put k v s)
  pub remove_lem :
      (k : Key) (s : State) → Writes contents (contents s) (update (contents s) k none) (remove k s)
  pub list_lem :
      (p : Prefix) (s : State)
      → Reads contents
          (contents s)
          (λ ids. (id : String) → IsStored (contents s) (member_key p id) → In id ids)
          (list p s)
  pub list_versions_lem :
      (p : String) (s : State)
      → Reads contents
          (contents s)
          (λ vs. (v : ℕ) → In v vs ↔ IsStored (contents s) (version_key p v))
          (list_versions p s)
  pub list_status_keys_lem :
      (p : String) (s : State)
      → Reads contents
          (contents s)
          (λ ks. (a o : String) → In (a, o) ks ↔ IsStored (contents s) (status_key p a o))
          (list_status_keys p s)
  pub collect_due_lem :
      (s : State)
      → Reads contents
          (contents s)
          (λ ks.
            (d : ℕ) (id : String) → In (d, id) ks ↔ IsStored (contents s) (outbox_by_due_key d id))
          (collect_due s)
  pub collect_intents_lem :
      (s : State)
      → Reads contents
          (contents s)
          (λ ks.
            (p : String) (n : ℕ) → In (p, n) ks ↔ IsStored (contents s) (enqueue_intent_key p n))
          (collect_intents s)
  pub collect_associations_lem :
      (s : State)
      → Reads contents
          (contents s)
          (λ ks. (p id : String) → In (p, id) ks ↔ IsStored (contents s) (association_key p id))
          (collect_associations s)
  pub now_utc_lem : (s : State) → Reads contents (contents s) (λ (_ : ℕ). Unit {0}) (now_utc s)
  pub random_id_lem :
      (s : State) → Reads contents (contents s) (λ (_ : String). Unit {0}) (random_id s)

-- An action of the backend: a function that returns a value or an error, and uses the storage.
abbrev pub M : ⦃env : Env⦄ → Type 0 → Type 0
M ⦃env⦄ A = env.State → Result env.State A

infixl 5 ◌>>=◌ ◌>>◌
unfoldable pub ◌>>=◌ : {S A B : Type 0} → (S → Result S A) → (A → S → Result S B) → S → Result S B
◌>>=◌ m f s = elim (m s) [ ok a t ↦ f a t | err e t ↦ err e t ]

abbrev pub ◌>>◌ : {S B : Type 0} → (S → Result S (Unit {0})) → (S → Result S B) → S → Result S B
m >> k = m >>= λ _. k

abbrev pub pure : {S A : Type 0} → A → S → Result S A
pure a s = ok a s

abbrev pub throw : {S A : Type 0} → Error → S → Result S A
throw e s = err e s

-- `if err := m; err != nil { ... }`.
unfoldable pub catch : {S A : Type 0} → (S → Result S A) → (Error → S → Result S A) → S → Result S A
catch m h s = elim (m s) [ ok a t ↦ ok a t | err e t ↦ h e t ]

-- `_ = m`.
abbrev pub ignore_error : {S : Type 0} → (S → Result S (Unit {0})) → S → Result S (Unit {0})
ignore_error m = catch m (λ _. pure tt)

-- `if x != nil { ... }`.
abbrev pub option {ℓ} : {A : Type 0} {B : Type ℓ} → Option A → B → (A → B) → B
option none b f = b
option (some a) b f = f a

module _ ⦃env : Env⦄ where
  abbrev pub get_entry : Key → M (Option Value)
  get_entry = env.get

  abbrev pub put_entry : Key → Value → M (Unit {0})
  put_entry = env.put

  abbrev pub delete_entry : Key → M (Unit {0})
  delete_entry = env.remove

  abbrev pub now_utc : M ℕ
  now_utc = env.now_utc
