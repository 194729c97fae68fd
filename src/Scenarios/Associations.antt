-- ===== src/Scenarios/Associations.antt =====
-- The theorems on associations and their reconciliation, at concrete records.
use openbao_plugin_secrets_s.Prelude.{
  ◌≡◌, ◌↔◌, refl, true, false, pos, [], ◌∷◌, none, some, string_eq,
}
use openbao_plugin_secrets_s.Records.{stamp, AssociationRecord, synced}
use openbao_plugin_secrets_s.Storage.{association_key, association_value, outbox_key}
use openbao_plugin_secrets_s.Storage.Triples.{Ends}
use openbao_plugin_secrets_s.Storage.Faultless.{Faultless}
use openbao_plugin_secrets_s.Text.{trim}
use openbao_plugin_secrets_s.Associations.{association_reservation_key, raw_reservation_name}
use openbao_plugin_secrets_s.Source.{new_metadata_record}
use openbao_plugin_secrets_s.AssociationFields.{
  resolve_association_names, validate_association_identity_update,
}
use openbao_plugin_secrets_s.AssociationRequests.{store_association_write}
use openbao_plugin_secrets_s.AssociationRequests.Rollback.{
  StandsBefore, store_association_write-StandsBefore,
}
use openbao_plugin_secrets_s.AssociationWrites.{AssociationSettings, association_record}
use openbao_plugin_secrets_s.AssociationWrites.Identity.{
  IsIdentified, association_record-IsIdentified, validate_association_identity_update-same_id,
}
use openbao_plugin_secrets_s.Providers.{RemoteState}
use openbao_plugin_secrets_s.Requests.{FieldData, bool_field}
use openbao_plugin_secrets_s.Reconcile.{reconcile_state_for_remote_state}
use openbao_plugin_secrets_s.Reconcile.Verdicts.{
  Matches, reconcile_state_for_remote_state-synced_iff,
}
use openbao_plugin_secrets_s.Outbox.Records.Indexed.{Indexed}
use openbao_plugin_secrets_s.Outbox.Listing.{delete_outbox_for_association}
use openbao_plugin_secrets_s.Outbox.Listing.Removal.{delete_outbox_for_association-removes}
use openbao_plugin_secrets_s.Scenarios.Runs.{operation, queued, queued-Indexed}
use openbao_plugin_secrets_s.Scenarios.Memory.{lookup, service}
use openbao_plugin_secrets_s.Scenarios.Writes.{plain}

abbrev settings : AssociationSettings
settings = record {
  granularity = "secret-path";
  format = "json";
  data_mapping = "";
  data_key_template = "";
  delete_mode = "retain";
  name_template = "app";
  resolved_name = "app";
}

abbrev pub association : AssociationRecord
association =
    association_record "team/app" "fake" "main" [] none settings
      (record { config = []; identity = "" }) ("app", "app") (stamp 1000)

service-Faultless : Faultless service
service-Faultless = record {
  get_sure = λ k s. tt;
  put_sure = λ k v s. tt;
  remove_sure = λ k s. tt;
  list_sure = λ p s. tt;
  now_sure = λ s. tt;
}

store_association_write-StandsBefore_example :
    Ends
      (λ _ c. c (association_key "team/app" association.id) ≡ some (association_value association))
      (StandsBefore association none)
      (store_association_write association (new_metadata_record "g") none [])
unfolding association_record lookup
store_association_write-StandsBefore_example =
    (store_association_write-StandsBefore service-Faultless association (new_metadata_record "g")
        none tt).run
      [] refl

association_names :
    resolve_association_names "team/app" "fake" "main" "secret-path" "app" "app"
    ≡ some ("app", "app")
unfolding resolve_association_names trim
association_names = refl

association-IsIdentified : IsIdentified association
association-IsIdentified =
    association_record-IsIdentified "team/app" "fake" "main" [] none settings
      (record { config = []; identity = "" }) ("app", "app") (stamp 1000) association_names

abbrev disabling : FieldData
disabling = ("enabled", bool_field false) ∷ []

association_accepted :
    validate_association_identity_update (some association) (
      association_record "team/app" "fake" "main" disabling
        (some association)
        settings
        (record { config = []; identity = "" })
        ("app", "app")
        (stamp 2000))
    ≡ true
unfolding validate_association_identity_update association_record association_reservation_key
    raw_reservation_name
association_accepted = refl

validate_association_identity_update-same_id_example :
    (association_record "team/app" "fake" "main" disabling
      (some association)
      settings
      (record { config = []; identity = "" })
      ("app", "app")
      (stamp 2000)).id
    ≡ association.id
unfolding association_record
validate_association_identity_update-same_id_example =
    validate_association_identity_update-same_id "team/app" "fake" "main" disabling association
      settings (record { config = []; identity = "" }) ("app", "app") (stamp 2000) association_names
      association-IsIdentified refl refl association_accepted

abbrev pub remote : RemoteState
remote = record {
  exists = true;
  ownership_known = true;
  owned = true;
  payload_sha256 = "digest";
  source_version = pos 3;
  remote_version = "7";
  verification = "hash";
}

reconcile_state_for_remote_state-synced_iff_example :
    ((reconcile_state_for_remote_state 3 "digest" remote).state ≡ synced)
    ↔ Matches 3 "digest" remote
reconcile_state_for_remote_state-synced_iff_example =
    reconcile_state_for_remote_state-synced_iff 3 "digest" remote

abbrev owner : AssociationRecord
owner = record association { id = "a-1" }

delete_outbox_for_association-removes_example :
    Ends
      (λ _ c. Indexed c × (c (outbox_key "op-1") ≡ none))
      Indexed
      (delete_outbox_for_association owner queued)
unfolding association_record
delete_outbox_for_association-removes_example =
    (delete_outbox_for_association-removes operation owner refl refl (λ e. cc e)).run queued
      queued-Indexed
