-- ===== src/Providers.antt =====
-- internal/providers/provider.go: the interface of the providers and what passes through it. A provider
-- is the parameter `Provider`: each call is an action during which other workers may act too, since the
-- queue's lock is not held. A call on the runtime of a destination opens that runtime too
-- (provider_runtime_cache.go), so that its error may be one of opening.
use openbao_plugin_secrets_s.Prelude.{
  ℕ, ℤ, Bool, ◌&&◌, ◌!=◌, List, Option, String, string_eq, if◌then◌else◌,
}
use openbao_plugin_secrets_s.Records.{ErrorClass, internal, unavailable, blank_class}
use openbao_plugin_secrets_s.Storage.{Env, M}
use openbao_plugin_secrets_s.Payload.{CanonicalPayload}

pub record Capabilities : Type 0 where
  pub supports_value_readback : Bool
  pub supports_metadata_readback : Bool
  pub supports_payload_hash_metadata : Bool
  pub supports_update_if_owned : Bool
  pub supports_delete_if_owned : Bool
  pub supports_secret_path : Bool
  pub supports_secret_key : Bool
  pub supports_data_map : Bool
  pub max_payload_bytes : ℕ

pub record DestinationConfig : Type 0 where
  pub name : String
  pub config : List (String × String)

pub record AssociationConfig : Type 0 where
  pub config : List (String × String)
  pub identity : String

pub record RuntimeIdentity : Type 0 where
  pub mount_uuid : String
  pub restore_epoch : String

-- The identity that a remote object carries.
pub record RequestIdentity : Type 0 where
  pub association_id : String
  pub source_path : String
  pub object_id : String
  pub mount_uuid : String
  pub restore_epoch : String

unfoldable pub complete : RequestIdentity → Bool
complete i =
    i.association_id != ""
    && i.source_path != ""
    && i.object_id != ""
    && i.mount_uuid != ""
    && i.restore_epoch != ""

abbrev pub request_identity : RuntimeIdentity → String → String → String → RequestIdentity
request_identity runtime association_id source_path object_id = record {
  association_id = association_id;
  source_path = source_path;
  object_id = object_id;
  mount_uuid = runtime.mount_uuid;
  restore_epoch = runtime.restore_epoch;
}

pub data PlanAction : Type 0 where
  create update noop conflict blocked : PlanAction
  other_action : String → PlanAction

pub record PlanRequest : Type 0 where
  pub runtime : RuntimeIdentity
  pub association : AssociationConfig
  pub resolved_name : String
  pub format : String
  pub payload_sha256 : String
  pub payload_bytes : ℕ
  pub data_map : Bool
  pub data_map_keys : List String
  pub source_path : String
  pub source_version : ℕ
  pub association_id : String
  pub object_id : String

pub record PlanResult : Type 0 where
  pub action : PlanAction
  pub message : String
  pub error_class : ErrorClass

pub record UpsertRequest : Type 0 where
  pub runtime : RuntimeIdentity
  pub destination_config : List (String × String)
  pub provider_config : List (String × String)
  pub provider_identity : String
  pub resolved_name : String
  pub payload : CanonicalPayload
  pub idempotency_key : String
  pub source_path : String
  pub source_version : ℕ
  pub association_id : String
  pub object_id : String

pub record DeleteRequest : Type 0 where
  pub runtime : RuntimeIdentity
  pub destination_config : List (String × String)
  pub provider_config : List (String × String)
  pub provider_identity : String
  pub resolved_name : String
  pub idempotency_key : String
  pub data_map : Bool
  pub source_path : String
  pub source_version : ℕ
  pub association_id : String
  pub object_id : String

pub record ReadStateRequest : Type 0 where
  pub runtime : RuntimeIdentity
  pub association : AssociationConfig
  pub resolved_name : String
  pub payload_sha256 : String
  pub data_map : Bool
  pub source_path : String
  pub source_version : ℕ
  pub association_id : String
  pub object_id : String

pub record RemoteState : Type 0 where
  pub exists : Bool
  pub ownership_known : Bool
  pub owned : Bool
  pub payload_sha256 : String
  pub source_version : ℤ
  pub remote_version : String
  pub verification : String

pub record HealthResult : Type 0 where
  pub healthy : Bool
  pub message : String
  pub error_class : ErrorClass

-- The error of a provider: the class that it carries, whether it is a transport failure, and its text.
pub record ProviderError : Type 0 where
  pub class : ErrorClass
  pub is_transport : Bool
  pub message : String

-- What a provider call returns, a value or an error. An interrupted context is an `err` of the action.
pub data Answer (A : Type 0) : Type 0 where
  accepted : A → Answer A
  rejected : ProviderError → Answer A

unfoldable pub provider_error_class : ProviderError → ErrorClass
provider_error_class e = elim e.class [
  | blank_class ↦ if e.is_transport then unavailable else internal
  | c ↦ c
]

module _ ⦃env : Env⦄ where
  -- A nil pointer that a call returns is `none`.
  pub record Provider : Type 0 where
    pub type : String
    pub capabilities : Capabilities
    pub validate_config : DestinationConfig → M (Option ProviderError)
    pub normalize_association_config :
        DestinationConfig → AssociationConfig → M (Answer AssociationConfig)
    pub health : DestinationConfig → M (Answer (Option HealthResult))
    pub plan : DestinationConfig → PlanRequest → M (Answer (Option PlanResult))
    pub upsert : UpsertRequest → M (Answer String)
    pub delete : DeleteRequest → M (Answer String)
    pub read_state : DestinationConfig → ReadStateRequest → M (Answer (Option RemoteState))

  -- The plugin's own identity and its registry of providers.
  pub record Plugin : Type 0 where
    pub mount_uuid : String
    pub worker_id : String
    pub registry : String → Option Provider
