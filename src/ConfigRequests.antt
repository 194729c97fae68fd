-- ===== src/ConfigRequests.antt =====
-- internal/backend/path_config.go: the requests for the global configuration, and its stored form.
pub mod Stored
pub mod Validity
pub mod Epochs
pub mod Commit
use openbao_plugin_secrets_s.Prelude.{
  ℕ, Bool, true, false, not, ◌&&◌, ◌||◌, List, [], ◌∷◌, Option, none, some, String, ◌==◌,
  if◌then◌else◌, string_eq, contains, ℤ, pos, negsuc, pos_part, is_negative, at_least, ltb_int,
}
use openbao_plugin_secrets_s.Records.{Stamp, blank, format_time, GlobalConfig}
use openbao_plugin_secrets_s.Storage.{
  config_key, config_value, refused, Env, M, ◌>>=◌, ◌>>◌, pure, throw, option, put_entry, now_utc,
}
use openbao_plugin_secrets_s.Storage.Transactions.{Transactions}
use openbao_plugin_secrets_s.Payload.{Codec}
use openbao_plugin_secrets_s.Config.{default_global_config, read_global_config}
use openbao_plugin_secrets_s.Requests.{FieldData, get_ok, as_text, as_bool, as_int, or_else}
use openbao_plugin_secrets_s.RuntimeState.{ensure_runtime_state, rotate_restore_epoch}

unfoldable pub validate_security_posture : String → Bool
validate_security_posture posture = posture == "standard" || posture == "hardened"

unfoldable pub validate_drift_repair_mode : String → Bool
validate_drift_repair_mode mode = mode == "off" || mode == "detect" || mode == "repair"

abbrev pub min_drift_interval : String
min_drift_interval = "1m"

module _ ⦃codec : Codec⦄ where
  unfoldable pub validate_drift_reconcile_interval : String → Bool
  validate_drift_reconcile_interval value = option (codec.parse_duration value) false λ duration.
      option (codec.parse_duration min_drift_interval) false
        λ minimum. not (ltb_int duration minimum)

-- A missing field of the stored JSON is `none`.
pub record StoredGlobalConfig : Type 0 where
  pub security_posture : Option String
  pub disabled : Bool
  pub restore_guard : Option Bool
  pub restore_guard_acknowledged_time : Stamp
  pub queue_capacity : Option ℤ
  pub drift_repair : Option String
  pub drift_reconcile_interval : Option String
  pub drift_reconcile_batch : Option ℤ
  pub event_dispatch_enabled : Option Bool
  pub event_dispatch_max_operations : Option ℤ
  pub updated_time : Stamp

unfoldable pub is_missing : {A : Type 0} → Option A → Bool
is_missing none = true
is_missing (some _) = false

module _ ⦃codec : Codec⦄ where
  -- The tests of the decoded fields; the numbers are still those of the JSON.
  unfoldable pub decoded_fields_valid : StoredGlobalConfig → GlobalConfig → Bool
  unfolding validate_security_posture validate_drift_repair_mode validate_drift_reconcile_interval
  decoded_fields_valid s cfg =
      validate_security_posture cfg.security_posture
      && not (is_negative (or_else (pos cfg.queue_capacity) s.queue_capacity))
      && validate_drift_repair_mode cfg.drift_repair
      && validate_drift_reconcile_interval cfg.drift_reconcile_interval
      && at_least 1 (or_else (pos cfg.drift_reconcile_batch) s.drift_reconcile_batch)
      && at_least 1
          (or_else (pos cfg.event_dispatch_max_operations) s.event_dispatch_max_operations)

abbrev number_or : ℕ → Option ℤ → ℕ
number_or n none = n
number_or n (some x) = pos_part x

unfoldable pub with_defaults : StoredGlobalConfig → GlobalConfig
unfolding default_global_config
with_defaults s = record {
  security_posture = or_else default_global_config.security_posture s.security_posture;
  disabled = s.disabled;
  restore_guard = or_else false s.restore_guard;
  restore_guard_acknowledged_time = s.restore_guard_acknowledged_time;
  queue_capacity = number_or default_global_config.queue_capacity s.queue_capacity;
  drift_repair = or_else default_global_config.drift_repair s.drift_repair;
  drift_reconcile_interval =
      or_else default_global_config.drift_reconcile_interval s.drift_reconcile_interval;
  drift_reconcile_batch =
      number_or default_global_config.drift_reconcile_batch s.drift_reconcile_batch;
  event_dispatch_enabled = or_else true s.event_dispatch_enabled;
  event_dispatch_max_operations =
      number_or default_global_config.event_dispatch_max_operations s.event_dispatch_max_operations;
  updated_time = s.updated_time;
}

abbrev any_missing : StoredGlobalConfig → Bool
any_missing s =
    is_missing s.restore_guard
    || is_missing s.queue_capacity
    || is_missing s.security_posture
    || is_missing s.drift_repair
    || is_missing s.drift_reconcile_interval
    || is_missing s.drift_reconcile_batch
    || is_missing s.event_dispatch_enabled
    || is_missing s.event_dispatch_max_operations

module _ ⦃codec : Codec⦄ where
  -- The configuration, and whether a missing field was filled in.
  unfoldable pub decode_stored_global_config : StoredGlobalConfig → Option (GlobalConfig × Bool)
  unfolding with_defaults decoded_fields_valid is_missing
  decode_stored_global_config s =
      if decoded_fields_valid s (with_defaults s)
      then some (with_defaults s, any_missing s)
      else none

unfoldable pub config_fields : List String
config_fields =
    "security_posture" ∷ "disabled" ∷ "restore_guard" ∷ "queue_capacity" ∷ "drift_repair"
    ∷ "drift_reconcile_interval" ∷ "drift_reconcile_batch" ∷ "event_dispatch_enabled"
    ∷ "event_dispatch_max_operations" ∷ []

-- `true` is a nil error.
unfoldable pub reject_unknown_config_fields : FieldData → Bool
unfolding config_fields
reject_unknown_config_fields [] = true
reject_unknown_config_fields ((key, _) ∷ d) =
    contains config_fields key && reject_unknown_config_fields d

-- What a field of a request, if it is there, makes of the configuration.
abbrev with_field :
    {A : Type 0} → Option A → (A → Bool) → (A → GlobalConfig) → GlobalConfig → Option GlobalConfig
with_field none valid change cfg = some cfg
with_field (some a) valid change cfg = if valid a then some (change a) else none

unfoldable pub apply_queue_capacity : FieldData → GlobalConfig → Option GlobalConfig
apply_queue_capacity d cfg =
    with_field (as_int (get_ok d "queue_capacity")) (λ n. not (is_negative n))
      (λ n. record cfg { queue_capacity = pos_part n }) cfg

unfoldable pub apply_security_posture_config_field : FieldData → GlobalConfig → Option GlobalConfig
apply_security_posture_config_field d cfg =
    if reject_unknown_config_fields d
    then with_field (as_text (get_ok d "security_posture")) validate_security_posture
        (λ posture. record cfg { security_posture = posture }) cfg
    else none

unfoldable pub apply_drift_repair : FieldData → GlobalConfig → Option GlobalConfig
apply_drift_repair d cfg =
    with_field (as_text (get_ok d "drift_repair")) validate_drift_repair_mode
      (λ mode. record cfg { drift_repair = mode }) cfg

unfoldable pub apply_drift_reconcile_batch : FieldData → GlobalConfig → Option GlobalConfig
apply_drift_reconcile_batch d cfg =
    with_field (as_int (get_ok d "drift_reconcile_batch")) (at_least 1)
      (λ n. record cfg { drift_reconcile_batch = pos_part n }) cfg

unfoldable pub apply_event_dispatch_config_fields : FieldData → GlobalConfig → Option GlobalConfig
apply_event_dispatch_config_fields d cfg =
    let enabled : GlobalConfig = record cfg {
      event_dispatch_enabled =
          or_else cfg.event_dispatch_enabled (as_bool (get_ok d "event_dispatch_enabled"));
    } in
    with_field (as_int (get_ok d "event_dispatch_max_operations")) (at_least 1)
      (λ n. record enabled { event_dispatch_max_operations = pos_part n }) enabled

module _ ⦃codec : Codec⦄ where
  unfoldable pub apply_drift_reconcile_interval : FieldData → GlobalConfig → Option GlobalConfig
  apply_drift_reconcile_interval d cfg =
      with_field (as_text (get_ok d "drift_reconcile_interval")) validate_drift_reconcile_interval
        (λ interval. record cfg { drift_reconcile_interval = interval }) cfg

  unfoldable pub apply_drift_config_fields : FieldData → GlobalConfig → Option GlobalConfig
  apply_drift_config_fields d cfg =
      option (apply_drift_repair d cfg) none
        λ a. option (apply_drift_reconcile_interval d a) none (apply_drift_reconcile_batch d)

  -- The fields after the restore guard.
  unfoldable pub apply_config_fields : FieldData → GlobalConfig → Option GlobalConfig
  apply_config_fields d cfg = option (apply_queue_capacity d cfg) none λ a.
      option (apply_security_posture_config_field d a) none
        λ b. option (apply_drift_config_fields d b) none (apply_event_dispatch_config_fields d)

unfoldable pub config_write_resumes_event_dispatch : GlobalConfig → GlobalConfig → Bool
config_write_resumes_event_dispatch previous cfg =
    if not cfg.event_dispatch_enabled || cfg.disabled || cfg.restore_guard
    then false
    else previous.disabled || previous.restore_guard || not previous.event_dispatch_enabled

module _ ⦃env : Env⦄ where
  pub apply_restore_guard : Option Bool → GlobalConfig → M GlobalConfig
  apply_restore_guard none cfg = pure cfg
  apply_restore_guard (some true) cfg =
      pure (record cfg { restore_guard = true; restore_guard_acknowledged_time = blank })
  apply_restore_guard (some false) cfg = do
    time ← now_utc
    pure (record cfg { restore_guard = false; restore_guard_acknowledged_time = format_time time })

module _ ⦃env : Env⦄ (t : Transactions env) where
  pub put_global_config : GlobalConfig → M (Unit {0})
  put_global_config cfg = put_entry config_key (config_value cfg)

  -- The epoch is the new one where it is rotated.
  abbrev rotated : Bool → Stamp → M (Option String)
  rotated rotate now =
      if rotate then (do r ← rotate_restore_epoch now; pure (some r.epoch)) else pure none

  pub commit_global_config : GlobalConfig → Bool → M (Option String)
  commit_global_config cfg rotate =
      if rotate && not t.is_transactional
      then throw (refused "clearing an active restore guard requires transactional storage")
      else t.with_transaction
          (do epoch ← rotated rotate cfg.updated_time; put_global_config cfg; pure epoch)

  module _ ⦃codec : Codec⦄ where
    -- The answer tells whether the dispatcher is woken.
    pub path_config_write : FieldData → M Bool
    path_config_write d = do
      previous ← read_global_config
      guarded ←
          apply_restore_guard (as_bool (get_ok d "restore_guard")) (record previous {
            disabled = or_else previous.disabled (as_bool (get_ok d "disabled"));
          })
      option (apply_config_fields d guarded) (throw (refused "config")) λ applied. do
        time ← now_utc
        let cfg : GlobalConfig = record applied { updated_time = format_time time }
        _ ← commit_global_config cfg (previous.restore_guard && not cfg.restore_guard)
        pure (config_write_resumes_event_dispatch previous cfg)

  -- The configuration, and the epoch in force.
  pub path_config_restore_guard_acknowledge_write : M (GlobalConfig × String)
  path_config_restore_guard_acknowledge_write = do
    epoch ← ensure_runtime_state
    previous ← read_global_config
    time ← now_utc
    let cfg : GlobalConfig = record previous {
      restore_guard = false;
      restore_guard_acknowledged_time = format_time time;
      updated_time = format_time time;
    }
    rotated_epoch ← commit_global_config cfg previous.restore_guard
    pure (cfg, or_else epoch rotated_epoch)
