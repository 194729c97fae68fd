-- ===== src/Scenarios/Recoveries.antt =====
-- The theorem on recovery, at one intent.
use openbao_plugin_secrets_s.Prelude.{◌≡◌, refl, ◌⊎◌, true, false, [], ◌∷◌, none, All}
use openbao_plugin_secrets_s.Records.{
  blank, stamp, upsert, text, VersionRecord, AssociationRecord, EnqueueIntentRecord,
  outbox_trigger_user,
}
use openbao_plugin_secrets_s.Storage.{
  Key-discrete, enqueue_intent_key, association_key, version_key, intent_value, association_value,
  version_value,
}
use openbao_plugin_secrets_s.Storage.Triples.{Ends}
use openbao_plugin_secrets_s.Enqueue.Intents.{IntentStored}
use openbao_plugin_secrets_s.Recovery.{recover_enqueue_intent, should_recover_intent_operation}
use openbao_plugin_secrets_s.Recovery.Restoration.{Recoverable}
use openbao_plugin_secrets_s.Recovery.Completion.{
  Waiting, HasAvailability, Completed, recover_enqueue_intent-Completed,
}
use openbao_plugin_secrets_s.Scenarios.Memory.{Entries, lookup, service}

abbrev intent : EnqueueIntentRecord
intent = record {
  path = "team/app";
  generation = "g";
  version = 1;
  operations =
      (record {
        id = "op-1";
        type = upsert;
        association_id = "a-1";
        object_id = "secret-path";
        destination_ref = "fake/main";
        not_before = blank;
        idempotency_key = "op-1";
        trigger = outbox_trigger_user;
      })
      ∷ [];
  cancel_operation_ids = [];
  created_time = stamp 1;
  updated_time = stamp 1;
}

abbrev association : AssociationRecord
association = record {
  id = "a-1";
  path = "team/app";
  destination_type = "fake";
  destination_name = "main";
  destination_ref = "fake/main";
  name_template = "";
  resolved_name = "app";
  reservation_names = [];
  granularity = "secret-path";
  format = "json";
  data_mapping = "";
  data_key_template = "";
  provider_config = [];
  provider_identity = "";
  delete_mode = "retain";
  enabled = true;
  created_time = blank;
  updated_time = blank;
}

abbrev version : VersionRecord
version = record {
  version = 1;
  created_time = stamp 1;
  payload = ("password", text "hunter2") ∷ [];
  deletion_time = blank;
  destroyed = false;
}

-- A write stopped after it had stored the version.
abbrev interrupted : Entries
interrupted =
    (enqueue_intent_key "team/app" 1, intent_value intent)
    ∷ (association_key "team/app" "a-1", association_value association)
    ∷ (version_key "team/app" 1, version_value version)
    ∷ []

interrupted-Waiting :
    Waiting intent (lookup interrupted) × HasAvailability intent true (lookup interrupted)
unfolding lookup Key-discrete
interrupted-Waiting = ((refl, ((association, refl), tt)), refl)

All-Recoverable : All (Recoverable true) intent.operations
unfolding should_recover_intent_operation
All-Recoverable = (refl, tt)

recover_enqueue_intent-Completed_example :
    Ends
      (λ _ c. Completed intent c × (c (enqueue_intent_key "team/app" 1) ≡ none))
      (λ c. IntentStored intent c ⊎ Completed intent c)
      (recover_enqueue_intent intent (stamp 2) interrupted)
recover_enqueue_intent-Completed_example =
    (recover_enqueue_intent-Completed intent (stamp 2) true All-Recoverable).run interrupted
      interrupted-Waiting
