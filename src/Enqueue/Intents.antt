-- ===== src/Enqueue/Intents.antt =====
-- Enqueue intents and the operations that they list (enqueue.go).
use openbao_plugin_secrets_s.Prelude.{
  Bool, false, inl, inr, ◌⊎◌, ℕ, ◌≡◌, refl, ◌∙◌, List, [], ◌∷◌, none, some, String, All, All-map,
}
use openbao_plugin_secrets_s.Records.{OutboxRecord, Stamp, EnqueueIntentRecord}
use openbao_plugin_secrets_s.Storage.{
  Key, enqueue_intent_key, outbox_key, intent_value, Contents, Env,
}
use openbao_plugin_secrets_s.Storage.Triples.{
  Ignores-at, Triple, Triple-bind, Triple-pure, Triple-weaken, Ignores, update_same, update_other,
  ne_of_class,
}
use openbao_plugin_secrets_s.Outbox.Records.Frame.{is_index_key, is_outbox_key}
use openbao_plugin_secrets_s.Outbox.Records.Recorded.{
  Recorded, Stable, Stable-Recorded, put_outbox-Recorded,
}
use openbao_plugin_secrets_s.Source.Intents.{
  is_enqueue_intent_key, Triple-put_enqueue_intent, Triple-delete_enqueue_intent,
}
use openbao_plugin_secrets_s.Enqueue.{
  put_outbox_records, put_pending_enqueue_intent, complete_enqueue_intent,
}
use openbao_plugin_secrets_s.Operations.{new_enqueue_intent_record}

abbrev pub AllRecorded : List OutboxRecord → Contents → Type 0
AllRecorded rs c = All (λ (r : OutboxRecord). Recorded r.id c) rs

module _ ⦃env : Env⦄ where
  pub Triple-put_outbox_records :
      (I : Contents → Type 0)
      → Stable I
      → (rs : List OutboxRecord)
      → Triple I (put_outbox_records rs) (λ _ c. I c × AllRecorded rs c) I
  unfolding put_outbox_records
  Triple-put_outbox_records I g [] = Triple-pure tt (λ c h. (h, tt))
  Triple-put_outbox_records I g (r ∷ rs) = Triple-bind _ _ _ (put_outbox-Recorded I g r) λ _.
      Triple-weaken _
        (Triple-put_outbox_records (λ c. I c × Recorded r.id c) (Stable-Recorded I r.id g) rs)
        (λ c h. h) (λ _ c h. (h.0.0, (h.0.1, h.1))) (λ c h. h.0)

-- What a change leaves to a restart: it has not begun, or its intent is there, or it needs none
-- because every operation is recorded. `P` says that it has not begun.
abbrev pub IntentStored : EnqueueIntentRecord → Contents → Type 0
IntentStored i c = c (enqueue_intent_key i.path i.version) ≡ some (intent_value i)

abbrev pub Underway : EnqueueIntentRecord → List OutboxRecord → Contents → Type 0
Underway i [] c = Unit
Underway i (r ∷ rs) c = IntentStored i c

pub Underway-cases :
    (i : EnqueueIntentRecord) (rs : List OutboxRecord) (c : Contents)
    → Underway i rs c
    → IntentStored i c ⊎ AllRecorded rs c
Underway-cases i [] c u = inr tt
Underway-cases i (r ∷ rs) c u = inl u

pub Ignores-Underway :
    (T : Key → Bool) (i : EnqueueIntentRecord) (rs : List OutboxRecord)
    → T (enqueue_intent_key i.path i.version) ≡ false
    → Ignores T (Underway i rs)
Ignores-Underway T i [] e c k v h u = tt
Ignores-Underway T i (r ∷ rs) e c k v h u =
    Ignores-at T (enqueue_intent_key i.path i.version) (λ o. o ≡ some (intent_value i)) e c k v h u

pub Stable-Underway : (i : EnqueueIntentRecord) (rs : List OutboxRecord) → Stable (Underway i rs)
Stable-Underway i rs = record {
  index = Ignores-Underway is_index_key i rs refl;
  put = λ c r h. Ignores-Underway is_outbox_key i rs refl c _ _ refl h;
}

module _ ⦃env : Env⦄ where
  pub Triple-put_pending_enqueue_intent :
      (P : Contents → Type 0) (path generation : String) (version : ℕ)
      (operations : List OutboxRecord) (cancel_ids : List String) (now : Stamp)
      → Ignores is_enqueue_intent_key P
      → Triple P
          (put_pending_enqueue_intent path generation version operations cancel_ids now)
          (λ _.
            Underway
              (new_enqueue_intent_record path generation version operations cancel_ids now)
              operations)
          P
  unfolding put_pending_enqueue_intent new_enqueue_intent_record
  Triple-put_pending_enqueue_intent P path generation version [] cancel_ids now g =
      Triple-pure tt (λ c h. tt)
  Triple-put_pending_enqueue_intent P path generation version (r ∷ rs) cancel_ids now g =
      let i = new_enqueue_intent_record path generation version (r ∷ rs) cancel_ids now in
      Triple-put_enqueue_intent i (IntentStored i) P λ c h. (
        update_same c (enqueue_intent_key i.path i.version) (some (intent_value i)),
        h,
        g c _ _ refl h,
      )

  pub Triple-complete_enqueue_intent :
      (path : String) (version : ℕ) (operations : List OutboxRecord)
      → Triple
          (AllRecorded operations)
          (complete_enqueue_intent path version operations)
          (λ _. AllRecorded operations)
          (AllRecorded operations)
  unfolding complete_enqueue_intent
  Triple-complete_enqueue_intent path version [] = Triple-pure tt (λ c h. h)
  Triple-complete_enqueue_intent path version (r ∷ rs) =
      Triple-delete_enqueue_intent path version _ _ λ c h.
        let next =
          All-map _ _ (r ∷ rs)
            (λ (x : OutboxRecord) (y : Recorded x.id c). (
              y.0,
              update_other c (enqueue_intent_key path version) (outbox_key x.id) none
                    (ne_of_class is_enqueue_intent_key _ _ refl refl)
                  ∙ y.1,
            ))
            h in
        (next, h, next)
