-- ===== src/Recovery/Completion.antt =====
-- Recoveries of an enqueue intent, complete and interrupted (recovery.go).
use openbao_plugin_secrets_s.Prelude.{
  ◌≡◌, refl, sym, subst, ap, ◌∙◌, ◌⊎◌, inl, inr, Bool, false, List, [], ◌∷◌, Option, none, some,
  All, All-map, nat_eq,
}
use openbao_plugin_secrets_s.Records.{
  Stamp, OutboxRecord, VersionRecord, AssociationRecord, EnqueueIntentRecord,
  EnqueueIntentOperation,
}
use openbao_plugin_secrets_s.Storage.{
  Key, version_key, association_key, enqueue_intent_key, outbox_key, version_value,
  association_value, intent_value, Value, Contents, update, Env, ◌>>=◌, ◌>>◌,
}
use openbao_plugin_secrets_s.Storage.Keeps.{Keeps-pure, Keeps-if, Keeps-option}
use openbao_plugin_secrets_s.Storage.Triples.{
  Triple, Triple-bind, Triple-then, Triple-weaken, Triple-given, Ignores, Ignores-at, update_same,
  update_other, ne_of_class,
}
use openbao_plugin_secrets_s.Storage.Reading.{Found}
use openbao_plugin_secrets_s.Outbox.Records.Frame.{is_outbox_key, is_index_key}
use openbao_plugin_secrets_s.Outbox.Records.Recorded.{Recorded, Stable}
use openbao_plugin_secrets_s.Outbox.Listing.Frame.{Keeps-cancel_queued_outbox_ids}
use openbao_plugin_secrets_s.Source.Frame.{is_source_key}
use openbao_plugin_secrets_s.Source.Intents.{Triple-delete_enqueue_intent}
use openbao_plugin_secrets_s.Source.Reads.{Triple-get_version}
use openbao_plugin_secrets_s.Source.Intents.{is_enqueue_intent_key}
use openbao_plugin_secrets_s.Enqueue.Intents.{IntentStored, AllRecorded}
use openbao_plugin_secrets_s.Recovery.{
  recover_enqueue_intent, restore_operations, recoverable_operations, is_available,
  intent_source_mutation_committed,
}
use openbao_plugin_secrets_s.Source.{delete_enqueue_intent}
use openbao_plugin_secrets_s.Recovery.Restoration.{
  Keeps-recover_intent_source_metadata, Triple-restore_operations, Triple-recoverable_operations,
  HasAssociation, Recoverable, ids_of, ids_listed,
}

Recorded-of_ids :
    (rs : List OutboxRecord) (os : List EnqueueIntentOperation) (c : Contents)
    → ids_of rs ≡ ids_listed os
    → AllRecorded rs c
    → All (λ (o : EnqueueIntentOperation). Recorded o.id c) os
Recorded-of_ids [] [] c e h = tt
Recorded-of_ids [] (o ∷ os) c e h = cc
Recorded-of_ids (r ∷ rs) [] c e h = tt
Recorded-of_ids (r ∷ rs) (o ∷ os) c e h =
    let same_id : r.id ≡ o.id = cc e in
    let same_rest : ids_of rs ≡ ids_listed os = cc e in
    (subst (λ id. Recorded id c) same_id h.0, Recorded-of_ids rs os c same_rest h.1)

-- What a recovery needs: the intent, and the association of each operation.
abbrev pub Waiting : EnqueueIntentRecord → Contents → Type 0
Waiting i c =
    IntentStored i c × All (λ (o : EnqueueIntentOperation). HasAssociation i.path o c) i.operations

-- The version stands at the key, and is readable or not.
abbrev stored_version : Option Value → Option VersionRecord
stored_version (some (version_value v)) = some v
stored_version _ = none

abbrev pub HasAvailability : EnqueueIntentRecord → Bool → Contents → Type 0
HasAvailability i b c = is_available (stored_version (c (version_key i.path i.version))) ≡ b

abbrev pub Completed : EnqueueIntentRecord → Contents → Type 0
Completed i c = All (λ (o : EnqueueIntentOperation). Recorded o.id c) i.operations

Ignores-All :
    (T : Key → Bool) (F : EnqueueIntentOperation → Contents → Type 0)
    (os : List EnqueueIntentOperation)
    → ((o : EnqueueIntentOperation) → Ignores T (F o))
    → Ignores T (λ c. All (λ o. F o c) os)
Ignores-All T F [] g c k v p h = tt
Ignores-All T F (o ∷ os) g c k v p h = (g o c k v p h.0, Ignores-All T F os g c k v p h.1)

Ignores-Waiting :
    (T : Key → Bool) (i : EnqueueIntentRecord)
    → T (enqueue_intent_key i.path i.version) ≡ false
    → ((o : EnqueueIntentOperation) → T (association_key i.path o.association_id) ≡ false)
    → Ignores T (Waiting i)
Ignores-Waiting T i p q c k v e h = (
  Ignores-at T (enqueue_intent_key i.path i.version) (λ o. o ≡ some (intent_value i)) p c k v e h.0,
  Ignores-All T (HasAssociation i.path) i.operations
      (λ o.
        Ignores-at T (association_key i.path o.association_id)
          (λ w. (r : AssociationRecord) × (w ≡ some (association_value r))) (q o))
      c k v e h.1,
)

Stable-Waiting : (i : EnqueueIntentRecord) → Stable (Waiting i)
Stable-Waiting i = record {
  index = Ignores-Waiting is_index_key i refl (λ o. refl);
  put = λ c r h. Ignores-Waiting is_outbox_key i refl (λ o. refl) c _ _ refl h;
}

availability_read :
    (i : EnqueueIntentRecord) (b : Bool) (o : Option VersionRecord) (c : Contents)
    → HasAvailability i b c
    → Found version_value (λ r. r) (version_key i.path i.version) o c
    → is_available o ≡ b
availability_read i b none c h f = sym (ap (λ o. is_available (stored_version o)) f) ∙ h
availability_read i b (some v) c h (x, p, e) =
    ap (λ w. is_available (some w)) p ∙ (sym (ap (λ o. is_available (stored_version o)) e) ∙ h)

Completed-delete :
    (i : EnqueueIntentRecord) (c : Contents)
    → Completed i c
    → Completed i (update c (enqueue_intent_key i.path i.version) none)
Completed-delete i c h =
    All-map _ _ i.operations
      (λ (o : EnqueueIntentOperation) (y : Recorded o.id c). (
        y.0,
        update_other c (enqueue_intent_key i.path i.version) (outbox_key o.id) none
              (ne_of_class is_enqueue_intent_key _ _ refl refl)
            ∙ y.1,
      ))
      h

module _ ⦃env : Env⦄ (i : EnqueueIntentRecord) (now : Stamp) where
  abbrev Left : Contents → Type 0
  Left c = IntentStored i c ⊎ Completed i c

  finish_recovery :
      (available : Bool)
      → All (Recoverable available) i.operations
      → Triple
          (Waiting i)
          (do
            operations ← recoverable_operations i now available i.operations
            restore_operations operations
            delete_enqueue_intent i.path i.version)
          (λ _ c. Completed i c × (c (enqueue_intent_key i.path i.version) ≡ none))
          Left
  finish_recovery available h =
      Triple-bind _ _ _
        (Triple-weaken _
          (Triple-recoverable_operations i now available (Waiting i) i.operations (λ c j. j.1) h)
          (λ c j. j) (λ rs c j. j) (λ c j. inl j.0))
        λ rs. Triple-given (ids_of rs ≡ ids_listed i.operations) _ λ same.
          Triple-bind (λ _ c. Waiting i c × Completed i c) _ _
            (Triple-weaken _ (Triple-restore_operations (Waiting i) (Stable-Waiting i) rs)
              (λ c j. j) (λ _ c j. (j.0, Recorded-of_ids rs i.operations c same j.1))
              (λ c j. inl j.0))
            λ _. Triple-delete_enqueue_intent i.path i.version _ _ λ c j.
              let gone = Completed-delete i c j.1 in
              (
                (gone, update_same c (enqueue_intent_key i.path i.version) none),
                inl j.0.0,
                inr gone,
              )

  -- A recovery of an intent whose operations all have their associations, and match what became of
  -- the version, records every operation and then deletes the intent. Wherever the storage fails, the
  -- intent is still there or every operation is recorded.
  pub recover_enqueue_intent-Completed :
      (available : Bool)
      → All (Recoverable available) i.operations
      → Triple
          (λ c. Waiting i c × HasAvailability i available c)
          (recover_enqueue_intent i now)
          (λ _ c. Completed i c × (c (enqueue_intent_key i.path i.version) ≡ none))
          (λ c. IntentStored i c ⊎ Completed i c)
  unfolding recover_enqueue_intent
  recover_enqueue_intent-Completed available h =
      let source = Ignores-Waiting is_source_key i refl (λ o. refl) in
      let outbox = Ignores-Waiting is_outbox_key i refl (λ o. refl) in
      Triple-bind (λ o c. Waiting i c × (is_available o ≡ available)) _ _
        (Triple-weaken _
          (Triple-get_version (λ c. Waiting i c × HasAvailability i available c) i.path i.version)
          (λ c j. j) (λ o c j. (j.0.0, availability_read i available o c j.0.1 j.1))
          (λ c j. inl j.0.0))
        λ o. Triple-given (is_available o ≡ available) _ λ e.
          Triple-then _ _
            (Keeps-option o _ _ (Keeps-pure tt) λ v.
              Keeps-if (intent_source_mutation_committed i (is_available o)) _ _
                (λ _. Keeps-recover_intent_source_metadata source i v) λ _. Keeps-pure tt)
            (λ c j. inl j.0)
            λ _.
              Triple-then _ _
                (Keeps-if (intent_source_mutation_committed i (is_available o)) _ _
                  (λ _. Keeps-cancel_queued_outbox_ids outbox i.cancel_operation_ids)
                  λ _. Keeps-pure tt)
                (λ c j. inl j.0)
                λ _.
                  finish_recovery (is_available o)
                    (subst (λ b. All (Recoverable b) i.operations) (sym e) h)
