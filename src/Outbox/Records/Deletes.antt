-- ===== src/Outbox/Records/Deletes.antt =====
-- A deletion of an operation writes nothing (storage_outbox.go).
use openbao_plugin_secrets_s.Prelude.{List, [], ◌∷◌, none, contains}
use openbao_plugin_secrets_s.Records.{OutboxRecord}
use openbao_plugin_secrets_s.Storage.{Key, outbox_key, Contents, update, Env}
use openbao_plugin_secrets_s.Storage.Keeps.{
  Keeps, Keeps-bind, Keeps-pure, Keeps-if, Keeps-option, Keeps-delete,
}
use openbao_plugin_secrets_s.Outbox.Records.{
  key_eq, delete_outbox, delete_outbox_indexes, delete_keys_except, outbox_index_keys,
}
use openbao_plugin_secrets_s.Outbox.Records.Frame.{Keeps-get_outbox}

module _ ⦃env : Env⦄ {I : Contents → Type 0}
    (g : (c : Contents) (k : Key) → I c → I (update c k none)) where
  Keeps-deletes : (retained ks : List Key) → Keeps I (delete_keys_except retained ks)
  unfolding delete_keys_except
  Keeps-deletes retained [] = Keeps-pure tt
  Keeps-deletes retained (k ∷ ks) =
      Keeps-bind _ _
        (Keeps-if (contains retained k) _ _ (λ _. Keeps-pure tt) λ _. Keeps-delete k (λ c. g c k))
        λ _. Keeps-deletes retained ks

  Keeps-delete_indexes : (r : OutboxRecord) → Keeps I (delete_outbox_indexes r)
  unfolding delete_outbox_indexes
  Keeps-delete_indexes r = Keeps-deletes [] (outbox_index_keys r)

  pub Keeps-only_deletes : (r : OutboxRecord) → Keeps I (delete_outbox r)
  unfolding delete_outbox
  Keeps-only_deletes r = Keeps-bind _ _ (Keeps-get_outbox r.id) λ existing.
      Keeps-bind _ _ (Keeps-delete (outbox_key r.id) (λ c. g c (outbox_key r.id))) λ _.
        Keeps-bind _ _ (Keeps-delete_indexes r)
          λ _. Keeps-option existing _ _ (Keeps-pure tt) Keeps-delete_indexes
