-- ===== src/Scenarios/Deletions.antt =====
-- The theorem on destroyed versions, at one of them.
use openbao_plugin_secrets_s.Prelude.{some, refl, true, [], ◌∷◌}
use openbao_plugin_secrets_s.Records.{blank, stamp, VersionRecord}
use openbao_plugin_secrets_s.Storage.{Key-discrete, version_key, version_value, update, left}
use openbao_plugin_secrets_s.Deletion.{
  mutation_undelete, mutation_destroy, commit_mutation, run_version_mutation,
}
use openbao_plugin_secrets_s.Deletion.Durability.{Resumable, commit_mutation-Resumable}
use openbao_plugin_secrets_s.Storage.Triples.{Ends}
use openbao_plugin_secrets_s.Source.{new_metadata_record}
use openbao_plugin_secrets_s.Operations.{new_enqueue_intent_record}
use openbao_plugin_secrets_s.Enqueue.Intents.{AllRecorded}
use openbao_plugin_secrets_s.Scenarios.Runs.{operation}
use openbao_plugin_secrets_s.Deletion.Destroyed.{Destroyed, WellNumbered, replace-WellNumbered}
use openbao_plugin_secrets_s.Deletion.Finality.{run_version_mutation-Destroyed}
use openbao_plugin_secrets_s.Scenarios.Memory.{Entries, lookup, service}
use openbao_plugin_secrets_s.Scenarios.Writes.{plain}

abbrev gone : VersionRecord
gone = record {
  version = 1;
  created_time = stamp 1;
  payload = [];
  deletion_time = blank;
  destroyed = true;
}

abbrev with_gone : Entries
with_gone = (version_key "team/app" 1, version_value gone) ∷ []

empty-WellNumbered : WellNumbered (lookup [])
unfolding lookup
empty-WellNumbered p n v e = cc e

gone-Destroyed : Destroyed "team/app" 1 (lookup with_gone)
unfolding lookup update Key-discrete
gone-Destroyed = (replace-WellNumbered (lookup []) "team/app" gone empty-WellNumbered, (refl, refl))

run_version_mutation-Destroyed_example :
    Destroyed "team/app" 1 (
      lookup
        (left (run_version_mutation mutation_undelete "team/app" (1 ∷ []) (stamp 2) with_gone)))
run_version_mutation-Destroyed_example =
    (run_version_mutation-Destroyed "team/app" 1 mutation_undelete "team/app" (1 ∷ []) (stamp 2)).at
      with_gone gone-Destroyed

commit_mutation-Resumable_example :
    Ends
      (λ _. AllRecorded (operation ∷ []))
      (Resumable
        (version_key "team/app" 1)
        (some (version_value gone))
        (new_enqueue_intent_record "team/app" "g" 1 (operation ∷ []) [] (stamp 2))
        (operation ∷ []))
      (commit_mutation mutation_destroy
        (new_metadata_record "g")
        "team/app"
        1
        (stamp 2)
        (operation ∷ [])
        []
        with_gone)
unfolding lookup Key-discrete new_metadata_record
commit_mutation-Resumable_example =
    (commit_mutation-Resumable mutation_destroy (new_metadata_record "g") "team/app" 1 (stamp 2)
        (operation ∷ []) [] (some (version_value gone))).run
      with_gone refl
