-- ===== src/Scenarios/Configs.antt =====
-- The theorems on the requests for the configuration, at a guarded configuration.
use openbao_plugin_secrets_s.Prelude.{
  ◌≡◌, refl, subst, inl, true, false, [], ◌∷◌, some, string_eq, arith,
}
use openbao_plugin_secrets_s.Records.{blank, GlobalConfig, RestoreEpochRecord}
use openbao_plugin_secrets_s.Storage.{
  Key-discrete, config_key, config_value, restore_epoch_key, epoch_value, left, Result, ok, err,
}
use openbao_plugin_secrets_s.Storage.Transactions.{Transactions, Whole}
use openbao_plugin_secrets_s.Config.{default_global_config}
use openbao_plugin_secrets_s.Requests.{FieldData, bool_field, int_field}
use openbao_plugin_secrets_s.Prelude.{pos}
use openbao_plugin_secrets_s.Storage.{◌>>=◌}
use openbao_plugin_secrets_s.RuntimeState.{new_runtime_id}
use openbao_plugin_secrets_s.RuntimeState.Epochs.{Fenced, Draws}
use openbao_plugin_secrets_s.ConfigRequests.{
  path_config_write, path_config_restore_guard_acknowledge_write, decode_stored_global_config,
  validate_security_posture, validate_drift_repair_mode, validate_drift_reconcile_interval,
}
use openbao_plugin_secrets_s.ConfigRequests.Epochs.{config_requests-Fenced}
use openbao_plugin_secrets_s.ConfigRequests.Stored.{StoredValid, path_config_write-StoredValid}
use openbao_plugin_secrets_s.ConfigRequests.Validity.{
  IsValid, encode_global_config, decode_stored_global_config-encode,
}
use openbao_plugin_secrets_s.Scenarios.Memory.{Entries, lookup, service}
use openbao_plugin_secrets_s.Scenarios.Writes.{plain}

-- A transaction that fails leaves the state that it started from.
abbrev rolled_back : {A : Type 0} → Entries → Result Entries A → Result Entries A
rolled_back s (ok a t) = ok a t
rolled_back s (err e t) = err e s

rolled_back-Whole :
    {A : Type 0} (s : Entries) (r : Result Entries A) → Whole lookup (lookup s) r (rolled_back s r)
rolled_back-Whole s (ok a t) = (refl, refl)
rolled_back-Whole s (err e t) = refl

is_on :
    {A : Type 0} (m : Entries → Result Entries A) → true ≡ false → (λ s. rolled_back s (m s)) ≡ m
is_on m e = cc e

abbrev transactions : Transactions service
transactions = record {
  is_transactional = true;
  with_transaction = λ m s. rolled_back s (m s);
  with_transaction_lem = λ m s e. rolled_back-Whole s (m s);
  without_transaction = λ m e. is_on m e;
}

abbrev guarded : GlobalConfig
guarded = record default_global_config { restore_guard = true }

abbrev epoch : RestoreEpochRecord
epoch = record { epoch = "before"; created_time = blank; updated_time = blank }

abbrev entries : Entries
entries = (config_key, config_value guarded) ∷ (restore_epoch_key, epoch_value epoch) ∷ []

entries-Fenced : Fenced "before" (lookup entries)
unfolding lookup Key-discrete
entries-Fenced = inl (guarded, refl, refl)

service-Draws : Draws service (λ v. ¬ (v ≡ "before"))
unfolding new_runtime_id ◌>>=◌
service-Draws P = record {
  run = λ s p. (p, λ e. cc ((string_eq.same_iff "epoch-random" "before").1 e));
}

abbrev lowering : FieldData
lowering = ("restore_guard", bool_field false) ∷ ("drift_reconcile_batch", int_field (pos 8)) ∷ []

config_requests-Fenced_example :
    Fenced "before" (lookup (left (path_config_write transactions lowering entries)))
    × Fenced "before"
        (lookup (left (path_config_restore_guard_acknowledge_write transactions entries)))
config_requests-Fenced_example =
    config_requests-Fenced transactions "before" service-Draws lowering entries entries-Fenced

default-IsValid : IsValid default_global_config
unfolding default_global_config validate_security_posture validate_drift_repair_mode
    validate_drift_reconcile_interval
default-IsValid = record {
  posture_valid = refl;
  mode_valid = refl;
  interval_valid = refl;
  batch_valid = omega arith;
  operations_valid = omega arith;
}

entries-StoredValid : StoredValid (lookup entries)
unfolding lookup Key-discrete
entries-StoredValid cfg e = let same : guarded ≡ cfg = cc e in subst IsValid same default-IsValid

path_config_write-StoredValid_example :
    StoredValid (lookup (left (path_config_write transactions lowering entries)))
path_config_write-StoredValid_example =
    path_config_write-StoredValid transactions default-IsValid lowering entries entries-StoredValid

decode_stored_global_config-encode_example :
    decode_stored_global_config (encode_global_config default_global_config)
    ≡ some (default_global_config, false)
decode_stored_global_config-encode_example =
    decode_stored_global_config-encode default_global_config default-IsValid
