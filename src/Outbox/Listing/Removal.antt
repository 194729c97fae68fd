-- ===== src/Outbox/Listing/Removal.antt =====
-- The deletion of the operations of an association (deleteOutboxForAssociation of storage_outbox.go).
use openbao_plugin_secrets_s.Prelude.{
  ◌≡◌, ◌≢◌, sym, subst, ap, ◌∙◌, ◌⊎◌, inl, inr, List, [], ◌∷◌, Option, none, some, String, In, ◌!=◌,
  string_eq, eq_self,
}
use openbao_plugin_secrets_s.Records.{OutboxRecord, AssociationRecord}
use openbao_plugin_secrets_s.Storage.{
  Key, Key-discrete, outbox_key, outbox_value, Contents, update, Env, pure, option,
}
use openbao_plugin_secrets_s.Storage.Keeps.{
  Keeps, Keeps-bind, Keeps-pure, Keeps-if, Keeps-option, Keeps-throw, Keeps-now,
}
use openbao_plugin_secrets_s.Storage.Triples.{
  Triple, Triple-bind, Triple-pure, Triple-if, Triple-throw, Triple-weaken, Triple-given,
  Triple-then, Keeps-Triple, update_same, update_other,
}
use openbao_plugin_secrets_s.Storage.Reading.{Found}
use openbao_plugin_secrets_s.Outbox.Records.{
  normalize_outbox_defaults, is_outbox_claim_active, delete_outbox,
}
use openbao_plugin_secrets_s.Outbox.Records.Frame.{Keeps-get_outbox}
use openbao_plugin_secrets_s.Outbox.Records.Reads.{Triple-get_outbox}
use openbao_plugin_secrets_s.Outbox.Records.Indexed.{Indexed}
use openbao_plugin_secrets_s.Outbox.Records.Indexing.{delete_outbox-Indexed}
use openbao_plugin_secrets_s.Outbox.Records.Deletes.{Keeps-only_deletes}
use openbao_plugin_secrets_s.Outbox.Listing.{
  delete_unclaimed, delete_ids_for_association, delete_outbox_for_association,
}
use openbao_plugin_secrets_s.Outbox.Listing.Membership.{Stored, list_outbox_ids_for_path-member}

module _ ⦃env : Env⦄ {I : Contents → Type 0}
    (deletes : (r : OutboxRecord) → Keeps I (delete_outbox r)) where
  Keeps-delete_unclaimed :
      (association_id : String) (r : OutboxRecord) → Keeps I (delete_unclaimed association_id r)
  unfolding delete_unclaimed
  Keeps-delete_unclaimed association_id r =
      Keeps-if (r.association_id != association_id) _ _ (λ _. Keeps-pure none)
        λ _. Keeps-bind _ _ Keeps-now λ now.
          Keeps-if (is_outbox_claim_active r now) _ _ (λ _. Keeps-throw _)
            λ _. Keeps-bind _ _ (deletes r) λ _. Keeps-pure _

  Keeps-delete_ids :
      (association_id : String) (ids : List String)
      → Keeps I (delete_ids_for_association association_id ids)
  unfolding delete_ids_for_association
  Keeps-delete_ids association_id [] = Keeps-pure []
  Keeps-delete_ids association_id (id ∷ ids) = Keeps-bind _ _ (Keeps-get_outbox id) λ r.
      Keeps-bind _ _ (Keeps-option r _ _ (Keeps-pure none) (Keeps-delete_unclaimed association_id))
        λ deleted. Keeps-bind _ _ (Keeps-delete_ids association_id ids) λ rest. Keeps-pure _

module _ (r : OutboxRecord) where
  abbrev Gone : Contents → Type 0
  Gone c = c (outbox_key r.id) ≡ none

  abbrev Either : Contents → Type 0
  Either c = Stored r c ⊎ Gone c

  Gone-delete : (c : Contents) (k : Key) → Gone c → Gone (update c k none)
  Gone-delete c k g = elim (Key-discrete k (outbox_key r.id)) [
    | yes p ↦ ap (update c k none) (sym p) ∙ update_same c k none
    | no n ↦ update_other c k (outbox_key r.id) none n ∙ g
  ]

  Either-delete : (c : Contents) (k : Key) → Either c → Either (update c k none)
  Either-delete c k (inr g) = inr (Gone-delete c k g)
  Either-delete c k (inl s) = elim (Key-discrete k (outbox_key r.id)) [
    | yes p ↦ inr (ap (update c k none) (sym p) ∙ update_same c k none)
    | no n ↦ inl (update_other c k (outbox_key r.id) none n ∙ s)
  ]

module _ ⦃env : Env⦄ where
  Indexed-deletes : (r : OutboxRecord) → Keeps Indexed (delete_outbox r)
  Indexed-deletes r = Keeps-Triple _ (delete_outbox-Indexed r) (λ _ c h. h.0)

  both :
      {I J : Contents → Type 0} (r : OutboxRecord)
      → Keeps I (delete_outbox r)
      → Keeps J (delete_outbox r)
      → Keeps (λ c. I c × J c) (delete_outbox r)
  both r k l = record { at = λ s h. (k.at s h.0, l.at s h.1) }

  module _ (r : OutboxRecord) (association_id : String)
      (own : r.association_id ≡ association_id) where
    -- What a read of the operation gives.
    abbrev Reading : Option OutboxRecord → Contents → Type 0
    Reading none = λ c. Indexed c × Gone r c
    Reading (some x) =
        λ c. (Indexed c × Either r c) × ((x.id ≡ r.id) × (x.association_id ≡ association_id))

    Found-Reading :
        (o : Option OutboxRecord) (c : Contents)
        → Indexed c × Either r c
        → Found outbox_value normalize_outbox_defaults (outbox_key r.id) o c
        → Reading o c
    Found-Reading none c h f = (h.0, f)
    Found-Reading (some x) c (i, inl s) (y, p, e) =
        let same : y ≡ r = cc (s, e) in
        (
          (i, inl s),
          (
            ap (λ (z : OutboxRecord). z.id) p ∙ ap (λ (z : OutboxRecord). z.id) same,
            ap (λ (z : OutboxRecord). z.association_id) p
                ∙ (ap (λ (z : OutboxRecord). z.association_id) same ∙ own),
          ),
        )
    Found-Reading (some x) c (i, inr g) (y, p, e) = cc (g, e)

    delete_own :
        (o : Option OutboxRecord)
        → Triple
            (Reading o)
            (option o (pure none) (delete_unclaimed association_id))
            (λ _ c. Indexed c × Gone r c)
            Indexed
    unfolding delete_unclaimed
    delete_own none = Triple-pure none (λ c h. h)
    delete_own (some x) =
        Triple-given {P = λ c. Indexed c × Either r c}
          ((x.id ≡ r.id) × (x.association_id ≡ association_id)) _
          λ e.
            Triple-if (x.association_id != association_id) _ _
              (λ other. cc (eq_self association_id, e.1, other))
              λ _.
                Triple-then _ _ Keeps-now (λ c h. h.0)
                  λ now.
                    Triple-if (is_outbox_claim_active x now) _ _ (λ _. Triple-throw _ (λ c h. h.0))
                      λ _.
                        Triple-bind (λ _ c. Indexed c × Gone r c) _ _
                          (Triple-weaken {E' = Indexed} _ (delete_outbox-Indexed x) (λ c h. h.0)
                            (λ _ c h. (h.0, ap (λ i. c (outbox_key i)) (sym e.0) ∙ h.1)) (λ c h. h))
                          λ _. Triple-pure _ (λ c h. h)

    delete_ids-removes :
        (ids : List String)
        → In r.id ids
        → Triple
            (λ c. Indexed c × Either r c)
            (delete_ids_for_association association_id ids)
            (λ _ c. Indexed c × Gone r c)
            Indexed
    unfolding delete_ids_for_association
    delete_ids-removes [] m = absurd m
    delete_ids-removes (id ∷ ids) (inl e) =
        Triple-bind Reading _ _
          (Triple-weaken {E' = Indexed} _ (Triple-get_outbox (λ c. Indexed c × Either r c) id)
            (λ c h. h)
            (λ o c h.
              Found-Reading o c h.0 (
                subst (λ i. Found outbox_value normalize_outbox_defaults (outbox_key i) o c) e h.1))
            (λ c h. h.0))
          λ o.
            Triple-bind (λ _ c. Indexed c × Gone r c) _ _ (delete_own o)
              λ deleted.
                Triple-then _ _
                  (Keeps-delete_ids
                    (λ x. both x (Indexed-deletes x) (Keeps-only_deletes (Gone-delete r) x))
                    association_id ids)
                  (λ c h. h.0) λ rest. Triple-pure _ (λ c h. h)
    delete_ids-removes (id ∷ ids) (inr m) =
        Triple-then _ _ (Keeps-get_outbox id) (λ c h. h.0)
          λ o.
            Triple-then _ _
              (Keeps-option o _ _ (Keeps-pure none) (
                Keeps-delete_unclaimed
                  (λ x. both x (Indexed-deletes x) (Keeps-only_deletes (Either-delete r) x))
                  association_id))
              (λ c h. h.0)
              λ deleted.
                Triple-bind (λ _ c. Indexed c × Gone r c) _ _ (delete_ids-removes ids m)
                  λ rest. Triple-pure _ (λ c h. h)

  -- If every stored operation is in its indexes, it is so after a deletion of the operations of an
  -- association too, wherever it stops; and a deletion that returns has removed every stored operation of
  -- the association at its path, which is not blank.
  pub delete_outbox_for_association-removes :
      (r : OutboxRecord) (a : AssociationRecord)
      → r.path ≡ a.path
      → r.association_id ≡ a.id
      → r.path ≢ ""
      → Triple
          (λ c. Indexed c × (c (outbox_key r.id) ≡ some (outbox_value r)))
          (delete_outbox_for_association a)
          (λ _ c. Indexed c × (c (outbox_key r.id) ≡ none))
          Indexed
  unfolding delete_outbox_for_association
  delete_outbox_for_association-removes r a path own named =
      Triple-bind (λ ids c. (Indexed c × Stored r c) × In r.id ids) _ _
        (list_outbox_ids_for_path-member r a.path path named)
        λ ids. Triple-given (In r.id ids) _ λ m.
          Triple-bind (λ _ c. Indexed c × Gone r c) _ _
            (Triple-weaken {E' = Indexed} _ (delete_ids-removes r a.id own ids m)
              (λ c h. (h.0, inl h.1)) (λ _ c h. h) (λ c h. h))
            λ _. Triple-pure tt (λ c h. h)
