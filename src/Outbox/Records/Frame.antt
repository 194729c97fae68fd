-- ===== src/Outbox/Records/Frame.antt =====
-- The writes of storage_outbox.go and the keys that they may touch.
use openbao_plugin_secrets_s.Prelude.{
  ◌≡◌, refl, Bool, true, false, List, [], ◌∷◌, Option, none, String, All, arith, contains,
}
use openbao_plugin_secrets_s.Records.{OutboxRecord}
use openbao_plugin_secrets_s.Storage.{
  Key, outbox_key, outbox_by_path_key, outbox_by_state_key, outbox_by_due_key, Value, outbox_value,
  decode_failed, Contents, Env, pure, option,
}
use openbao_plugin_secrets_s.Storage.Keeps.{
  Keeps, Keeps-throw, Keeps-get, Keeps-bind, Keeps-if, Keeps-pure, Keeps-option,
}
use openbao_plugin_secrets_s.Storage.Triples.{Ignores, Keeps-put_ignored, Keeps-delete_ignored}
use openbao_plugin_secrets_s.Outbox.Records.{
  decode_outbox, get_outbox, put_outbox, delete_outbox, put_outbox_indexes, put_index_keys,
  outbox_index_keys, delete_keys_except, outbox_due_index_time, key_eq, delete_stale_outbox_indexes,
  delete_outbox_indexes,
}

abbrev pub is_outbox_key : Key → Bool
is_outbox_key (outbox_key _) = true
is_outbox_key (outbox_by_path_key _ _) = true
is_outbox_key (outbox_by_state_key _ _) = true
is_outbox_key (outbox_by_due_key _ _) = true
is_outbox_key _ = false

abbrev pub is_index_key : Key → Bool
is_index_key (outbox_by_path_key _ _) = true
is_index_key (outbox_by_state_key _ _) = true
is_index_key (outbox_by_due_key _ _) = true
is_index_key _ = false

abbrev IsIndexKey : Key → Type 0
IsIndexKey k = is_index_key k ≡ true

outbox_index_keys-IsIndexKey : (r : OutboxRecord) → All IsIndexKey (outbox_index_keys r)
unfolding outbox_index_keys outbox_due_index_time
outbox_index_keys-IsIndexKey r = ground arith

is_outbox_key_of_index : (k : Key) → is_index_key k ≡ true → is_outbox_key k ≡ true
is_outbox_key_of_index k h = ground arith

Ignores-index : {I : Contents → Type 0} → Ignores is_outbox_key I → Ignores is_index_key I
Ignores-index g c k v h i = g c k v (is_outbox_key_of_index k h) i

module _ ⦃env : Env⦄ {I : Contents → Type 0} where
  Keeps-decode_outbox : (v : Value) → Keeps I (decode_outbox v)
  Keeps-decode_outbox (outbox_value r) = Keeps-pure r
  Keeps-decode_outbox _ = Keeps-throw decode_failed

  pub Keeps-get_outbox : (id : String) → Keeps I (get_outbox id)
  unfolding get_outbox
  Keeps-get_outbox id = Keeps-bind _ _ (Keeps-get _) λ entry.
      Keeps-option entry _ _ (Keeps-pure none)
        λ v. Keeps-bind _ _ (Keeps-decode_outbox v) λ r. Keeps-pure _

module _ ⦃env : Env⦄ {I : Contents → Type 0} (g : Ignores is_index_key I) where
  Keeps-put_index_keys :
      (ks : List Key) (id : String) → All IsIndexKey ks → Keeps I (put_index_keys ks id)
  unfolding put_index_keys
  Keeps-put_index_keys [] id h = Keeps-pure tt
  Keeps-put_index_keys (k ∷ ks) id h =
      Keeps-bind _ _ (Keeps-put_ignored is_index_key g k _ h.0) λ _. Keeps-put_index_keys ks id h.1

  pub Keeps-put_outbox_indexes : (r : OutboxRecord) → Keeps I (put_outbox_indexes r)
  unfolding put_outbox_indexes
  Keeps-put_outbox_indexes r = Keeps-put_index_keys _ _ (outbox_index_keys-IsIndexKey r)

  Keeps-delete_keys_except :
      (retained ks : List Key) → All IsIndexKey ks → Keeps I (delete_keys_except retained ks)
  unfolding delete_keys_except
  Keeps-delete_keys_except retained [] h = Keeps-pure tt
  Keeps-delete_keys_except retained (k ∷ ks) h =
      Keeps-bind _ _
        (Keeps-if (contains retained k) _ _ (λ _. Keeps-pure tt)
          (λ _. Keeps-delete_ignored is_index_key g k h.0))
        λ _. Keeps-delete_keys_except retained ks h.1

  Keeps-delete_indexes_of :
      (retained : List Key) (r : OutboxRecord)
      → Keeps I (delete_keys_except retained (outbox_index_keys r))
  Keeps-delete_indexes_of retained r =
      Keeps-delete_keys_except retained _ (outbox_index_keys-IsIndexKey r)

  pub Keeps-delete_existing :
      (r : OutboxRecord) (existing : Option OutboxRecord)
      → Keeps I (option existing (pure tt) λ old. delete_stale_outbox_indexes old r)
  unfolding delete_stale_outbox_indexes
  Keeps-delete_existing r existing =
      Keeps-option existing _ _ (Keeps-pure tt)
        λ old. Keeps-delete_indexes_of (outbox_index_keys r) old

module _ ⦃env : Env⦄ {I : Contents → Type 0} (g : Ignores is_outbox_key I) where
  pub Keeps-put_outbox : (r : OutboxRecord) → Keeps I (put_outbox r)
  unfolding put_outbox
  Keeps-put_outbox r = Keeps-bind _ _ (Keeps-get_outbox r.id) λ existing.
      Keeps-bind _ _ (Keeps-put_outbox_indexes (Ignores-index g) r) λ _.
        Keeps-bind _ _ (Keeps-put_ignored is_outbox_key g _ _ refl)
          λ _. Keeps-delete_existing (Ignores-index g) r existing

  pub Keeps-delete_outbox : (r : OutboxRecord) → Keeps I (delete_outbox r)
  unfolding delete_outbox delete_outbox_indexes
  Keeps-delete_outbox r = Keeps-bind _ _ (Keeps-get_outbox r.id) λ existing.
      Keeps-bind _ _ (Keeps-delete_ignored is_outbox_key g _ refl) λ _.
        Keeps-bind _ _ (Keeps-delete_indexes_of (Ignores-index g) [] r) λ _.
          Keeps-option existing _ _ (Keeps-pure tt)
            λ old. Keeps-delete_indexes_of (Ignores-index g) [] old
