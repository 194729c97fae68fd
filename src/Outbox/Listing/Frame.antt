-- ===== src/Outbox/Listing/Frame.antt =====
-- The listings and cancellations of storage_outbox.go and the keys that they may touch.
use openbao_plugin_secrets_s.Prelude.{ℕ, Bool, true, false, not, List, [], ◌∷◌, String, string_eq}
use openbao_plugin_secrets_s.Records.{OutboxRecord, OutboxState, pending, retry_wait}
use openbao_plugin_secrets_s.Storage.{queued_operation_claimed, by_state, by_path, Contents, Env}
use openbao_plugin_secrets_s.Storage.Keeps.{
  Keeps, Keeps-throw, Keeps-list, Keeps-bind, Keeps-if, Keeps-pure, Keeps-option, Keeps-now,
}
use openbao_plugin_secrets_s.Storage.Triples.{Ignores}
use openbao_plugin_secrets_s.Outbox.Records.{is_queued_outbox_state, is_outbox_claim_active}
use openbao_plugin_secrets_s.Outbox.Records.Frame.{
  is_outbox_key, Keeps-get_outbox, Keeps-delete_outbox,
}
use openbao_plugin_secrets_s.Outbox.Listing.{
  holds, has_outbox_record, has_queued_upsert_for_association_version,
  has_queued_upsert_for_association_object, filter_outbox_ids, list_outbox_ids_for_state,
  list_queued_outbox_ids, list_outbox_ids_for_path, filter_queued_outbox_ids,
  list_queued_outbox_ids_for_path, cancel_queued_outbox_ids, cancel_unclaimed,
  queued_upsert_ids_for_path_version, require_unclaimed, ensure_queued_outbox_ids_unclaimed,
}

module _ ⦃env : Env⦄ {I : Contents → Type 0} where
  pub Keeps-filter_outbox_ids :
      (ids : List String) (matches : OutboxRecord → Bool) → Keeps I (filter_outbox_ids ids matches)
  unfolding filter_outbox_ids
  Keeps-filter_outbox_ids [] matches = Keeps-pure []
  Keeps-filter_outbox_ids (id ∷ ids) matches =
      Keeps-bind _ _ (Keeps-get_outbox id)
        λ r. Keeps-bind _ _ (Keeps-filter_outbox_ids ids matches) λ rest. Keeps-pure _

  pub Keeps-list_outbox_ids_for_state : (s : OutboxState) → Keeps I (list_outbox_ids_for_state s)
  unfolding list_outbox_ids_for_state
  Keeps-list_outbox_ids_for_state s =
      Keeps-bind _ _ (Keeps-list (by_state s)) λ ids. Keeps-filter_outbox_ids ids _

  pub Keeps-list_queued_outbox_ids : Keeps I list_queued_outbox_ids
  unfolding list_queued_outbox_ids
  Keeps-list_queued_outbox_ids = Keeps-bind _ _ (Keeps-list_outbox_ids_for_state pending) λ waiting.
      Keeps-bind _ _ (Keeps-list_outbox_ids_for_state retry_wait) λ retrying. Keeps-pure _

  pub Keeps-list_queued_outbox_ids_for_path :
      (path : String) → Keeps I (list_queued_outbox_ids_for_path path)
  unfolding list_queued_outbox_ids_for_path list_outbox_ids_for_path filter_queued_outbox_ids
  Keeps-list_queued_outbox_ids_for_path path =
      Keeps-bind _ _
        (Keeps-bind _ _ (Keeps-list (by_path path)) λ ids. Keeps-filter_outbox_ids ids _)
        λ ids. Keeps-filter_outbox_ids ids _

module _ ⦃env : Env⦄ {I : Contents → Type 0} (g : Ignores is_outbox_key I) where
  Keeps-cancel_unclaimed : (r : OutboxRecord) → Keeps I (cancel_unclaimed r)
  unfolding cancel_unclaimed
  Keeps-cancel_unclaimed r =
      Keeps-if (not (is_queued_outbox_state r.state)) _ _ (λ _. Keeps-pure tt)
        λ _. Keeps-bind _ _ Keeps-now λ now.
          Keeps-if (is_outbox_claim_active r now) _ _
            (λ _. Keeps-throw (queued_operation_claimed r.id)) λ _. Keeps-delete_outbox g r

  pub Keeps-cancel_queued_outbox_ids : (ids : List String) → Keeps I (cancel_queued_outbox_ids ids)
  unfolding cancel_queued_outbox_ids
  Keeps-cancel_queued_outbox_ids [] = Keeps-pure tt
  Keeps-cancel_queued_outbox_ids (id ∷ ids) = Keeps-bind _ _ (Keeps-get_outbox id) λ r.
      Keeps-bind _ _ (Keeps-option r _ _ (Keeps-pure tt) Keeps-cancel_unclaimed)
        λ _. Keeps-cancel_queued_outbox_ids ids

module _ ⦃env : Env⦄ {I : Contents → Type 0} where
  pub Keeps-queued_upsert_ids_for_path_version :
      (path : String) (version : ℕ) → Keeps I (queued_upsert_ids_for_path_version path version)
  unfolding queued_upsert_ids_for_path_version
  Keeps-queued_upsert_ids_for_path_version path version =
      Keeps-bind _ _ (Keeps-list_queued_outbox_ids_for_path path)
        λ ids. Keeps-filter_outbox_ids ids _

  Keeps-require_unclaimed : (r : OutboxRecord) → Keeps I (require_unclaimed r)
  unfolding require_unclaimed
  Keeps-require_unclaimed r =
      Keeps-if (not (is_queued_outbox_state r.state)) _ _ (λ _. Keeps-pure tt)
        λ _. Keeps-bind _ _ Keeps-now λ now.
          Keeps-if (is_outbox_claim_active r now) _ _
            (λ _. Keeps-throw (queued_operation_claimed r.id)) λ _. Keeps-pure tt

  pub Keeps-ensure_queued_outbox_ids_unclaimed :
      (ids : List String) → Keeps I (ensure_queued_outbox_ids_unclaimed ids)
  unfolding ensure_queued_outbox_ids_unclaimed
  Keeps-ensure_queued_outbox_ids_unclaimed [] = Keeps-pure tt
  Keeps-ensure_queued_outbox_ids_unclaimed (id ∷ ids) = Keeps-bind _ _ (Keeps-get_outbox id) λ r.
      Keeps-bind _ _ (Keeps-option r _ _ (Keeps-pure tt) Keeps-require_unclaimed)
        λ _. Keeps-ensure_queued_outbox_ids_unclaimed ids

  Keeps-has_outbox_record :
      (ids : List String) (matches : OutboxRecord → Bool) → Keeps I (has_outbox_record ids matches)
  unfolding has_outbox_record
  Keeps-has_outbox_record [] matches = Keeps-pure false
  Keeps-has_outbox_record (id ∷ ids) matches = Keeps-bind _ _ (Keeps-get_outbox id) λ r.
      Keeps-if (holds matches r) _ _ (λ _. Keeps-pure true) λ _. Keeps-has_outbox_record ids matches

  pub Keeps-has_queued_upsert_for_association_version :
      (path association_id : String) (min_version : ℕ)
      → Keeps I (has_queued_upsert_for_association_version path association_id min_version)
  unfolding has_queued_upsert_for_association_version
  Keeps-has_queued_upsert_for_association_version path association_id min_version =
      Keeps-bind _ _ (Keeps-list_queued_outbox_ids_for_path path)
        λ ids. Keeps-has_outbox_record ids _

  pub Keeps-has_queued_upsert_for_association_object :
      (path association_id object_id : String) (min_version : ℕ)
      → Keeps I (has_queued_upsert_for_association_object path association_id object_id min_version)
  unfolding has_queued_upsert_for_association_object
  Keeps-has_queued_upsert_for_association_object path association_id object_id min_version =
      Keeps-bind _ _ (Keeps-list_queued_outbox_ids_for_path path)
        λ ids. Keeps-has_outbox_record ids _
