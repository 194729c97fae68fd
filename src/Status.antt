-- ===== src/Status.antt =====
-- internal/backend/storage_status.go: the status of each synced object.
pub mod Versions
pub mod Frame
use openbao_plugin_secrets_s.Prelude.{
  ℕ, Bool, true, false, List, [], ◌∷◌, Option, none, some, String, ◌==◌, if◌then◌else◌, string_eq,
  nat_eq, ltb,
}
use openbao_plugin_secrets_s.Records.{Stamp, StatusRecord, is_blank}
use openbao_plugin_secrets_s.Storage.{
  Key, status_key, Value, status_value, Error, decode_failed, Env, M, ◌>>=◌, ◌>>◌, pure, throw,
  option, get_entry, put_entry, delete_entry,
}

abbrev or_text : String → String → String
or_text new old = if new == "" then old else new

abbrev or_stamp : Stamp → Stamp → Stamp
or_stamp new old = if is_blank new then old else new

-- What a new status leaves empty is taken over from the one that it replaces.
unfoldable pub preserve_status_drift_bookkeeping : StatusRecord → StatusRecord → StatusRecord
preserve_status_drift_bookkeeping r existing = record r {
  verification = or_text r.verification existing.verification;
  last_reconcile_time = or_stamp r.last_reconcile_time existing.last_reconcile_time;
  last_drift_detected_time = or_stamp r.last_drift_detected_time existing.last_drift_detected_time;
  last_repair_time = or_stamp r.last_repair_time existing.last_repair_time;
  repair_count = if r.repair_count == 0 then existing.repair_count else r.repair_count;
}

abbrev pub status_key_of : StatusRecord → Key
status_key_of r = status_key r.path r.association_id r.object_id

module _ ⦃env : Env⦄ where
  abbrev decode_status : Value → M StatusRecord
  decode_status (status_value r) = pure r
  decode_status _ = throw decode_failed

  pub get_status : String → String → String → M (Option StatusRecord)
  get_status path association_id object_id = do
    entry ← get_entry (status_key path association_id object_id)
    option entry (pure none) λ v. do r ← decode_status v; pure (some r)

  write_status : StatusRecord → M (Unit {0})
  write_status r = put_entry (status_key_of r) (status_value r)

  pub put_status : StatusRecord → M (Unit {0})
  put_status r = do
    existing ← get_status r.path r.association_id r.object_id
    option existing (write_status r) λ old.
        if ltb r.version old.version
        then pure tt
        else write_status (preserve_status_drift_bookkeeping r old)

  pub delete_status : StatusRecord → M (Unit {0})
  delete_status r = delete_entry (status_key_of r)

  abbrev cons_status : Option StatusRecord → List StatusRecord → List StatusRecord
  cons_status none rs = rs
  cons_status (some r) rs = r ∷ rs

  read_statuses : String → List (String × String) → M (List StatusRecord)
  read_statuses path [] = pure []
  read_statuses path ((association_id, object_id) ∷ keys) = do
    r ← get_status path association_id object_id
    rest ← read_statuses path keys
    pure (cons_status r rest)

  pub list_status_records_for_path : String → M (List StatusRecord)
  list_status_records_for_path path = do keys ← env.list_status_keys path; read_statuses path keys
