-- ===== src/Outbox/Records.antt =====
-- storage_outbox.go: canonical records and index entries.
pub mod Deletes
pub mod Recorded
pub mod Indexing
pub mod Indexed
pub mod Reads
pub mod Frame
use openbao_plugin_secrets_s.Prelude.{
  ℕ, ◌≡◌, Bool, true, false, not, ◌&&◌, ◌||◌, List, [], ◌∷◌, ◌++◌, Option, none, some, String, ◌==◌,
  if◌then◌else◌, string_eq, contains, keep_if, to_bool, eq_of_discrete, Comparable, ltb,
}
use openbao_plugin_secrets_s.Records.{
  Stamp, blank, stamp, malformed, parse_time, OutboxState, pending, retry_wait, blank_state,
  OutboxRecord, outbox_trigger_user, second, is_blank,
}
use openbao_plugin_secrets_s.Storage.{
  Key, Key-discrete, outbox_key, outbox_by_path_key, outbox_by_state_key, outbox_by_due_key, Value,
  outbox_value, id_value, Error, decode_failed, Env, M, ◌>>=◌, ◌>>◌, pure, throw, option, get_entry,
  put_entry, delete_entry,
}

instance abbrev pub key_eq : Comparable Key
key_eq = eq_of_discrete Key-discrete

abbrev pub is_queued_outbox_state : OutboxState → Bool
is_queued_outbox_state pending = true
is_queued_outbox_state retry_wait = true
is_queued_outbox_state _ = false

abbrev is_blank_state : OutboxState → Bool
is_blank_state blank_state = true
is_blank_state _ = false

abbrev pub normalize_outbox_defaults : OutboxRecord → OutboxRecord
normalize_outbox_defaults r = record r {
  trigger = if r.trigger == "" then outbox_trigger_user else r.trigger;
}

abbrev pub outbox_trigger : OutboxRecord → String
outbox_trigger r = if r.trigger == "" then outbox_trigger_user else r.trigger

-- The second under which a stamp is indexed; `outboxDueZeroTime` is second 0.
abbrev pub due_second : Stamp → ℕ
due_second (stamp s) = s
due_second blank = 0
due_second (malformed _) = 0

-- `none` is the empty string.
unfoldable pub outbox_due_index_time : OutboxRecord → Option ℕ
outbox_due_index_time r =
    if is_queued_outbox_state r.state then some (due_second r.not_before) else none

abbrev due_keys : Option ℕ → String → List Key
due_keys none id = []
due_keys (some d) id = outbox_by_due_key d id ∷ []

unfoldable pub outbox_index_keys : OutboxRecord → List Key
outbox_index_keys r =
    (if r.path == "" then [] else outbox_by_path_key r.path r.id ∷ [])
    ++ ((if is_blank_state r.state then [] else outbox_by_state_key r.state r.id ∷ [])
        ++ due_keys (outbox_due_index_time r) r.id)

module _ ⦃env : Env⦄ where
  abbrev decode_outbox : Value → M OutboxRecord
  decode_outbox (outbox_value r) = pure r
  decode_outbox _ = throw decode_failed

  pub get_outbox : String → M (Option OutboxRecord)
  get_outbox id = do
    entry ← get_entry (outbox_key id)
    option entry (pure none) λ v. do r ← decode_outbox v; pure (some (normalize_outbox_defaults r))

  put_index_keys : List Key → String → M (Unit {0})
  put_index_keys [] id = pure tt
  put_index_keys (k ∷ ks) id = do put_entry k (id_value id); put_index_keys ks id

  pub put_outbox_indexes : OutboxRecord → M (Unit {0})
  put_outbox_indexes r = put_index_keys (outbox_index_keys r) r.id

  -- The keys of `ks` are deleted, but for those of `retained`.
  delete_keys_except : List Key → List Key → M (Unit {0})
  delete_keys_except retained [] = pure tt
  delete_keys_except retained (k ∷ ks) = do
    if contains retained k then pure tt else delete_entry k
    delete_keys_except retained ks

  pub delete_stale_outbox_indexes : OutboxRecord → OutboxRecord → M (Unit {0})
  delete_stale_outbox_indexes existing updated =
      delete_keys_except (outbox_index_keys updated) (outbox_index_keys existing)

  delete_outbox_indexes : OutboxRecord → M (Unit {0})
  delete_outbox_indexes r = delete_keys_except [] (outbox_index_keys r)

  pub put_outbox : OutboxRecord → M (Unit {0})
  put_outbox r = do
    existing ← get_outbox r.id
    put_outbox_indexes r
    put_entry (outbox_key r.id) (outbox_value r)
    option existing (pure tt) λ old. delete_stale_outbox_indexes old r

  pub delete_outbox : OutboxRecord → M (Unit {0})
  delete_outbox r = do
    existing ← get_outbox r.id
    delete_entry (outbox_key r.id)
    delete_outbox_indexes r
    option existing (pure tt) λ old. delete_outbox_indexes old

-- The lease of `isOutboxClaimActive` (dispatcher.go): a claim with an owner and a time to come.
abbrev expires_after : Option ℕ → ℕ → Bool
expires_after none now = false
expires_after (some t) now = ltb now t

unfoldable pub is_outbox_claim_active : OutboxRecord → ℕ → Bool
is_outbox_claim_active r now =
    if r.claim_owner == "" || is_blank r.claim_expires_time
    then false
    else expires_after (parse_time r.claim_expires_time) now
