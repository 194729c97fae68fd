-- ===== src/Source/Intents.antt =====
-- The writes and deletions of enqueue intents (storage_source.go).
use openbao_plugin_secrets_s.Prelude.{refl, Bool, true, false, ℕ, some, none, String}
use openbao_plugin_secrets_s.Records.{EnqueueIntentRecord}
use openbao_plugin_secrets_s.Storage.{Key, enqueue_intent_key, intent_value, Contents, update, Env}
use openbao_plugin_secrets_s.Storage.Keeps.{Keeps}
use openbao_plugin_secrets_s.Storage.Triples.{
  Ignores, Keeps-put_ignored, Keeps-delete_ignored, Triple, Triple-put, Triple-delete,
}
use openbao_plugin_secrets_s.Source.{put_enqueue_intent, delete_enqueue_intent}

abbrev pub is_enqueue_intent_key : Key → Bool
is_enqueue_intent_key (enqueue_intent_key _ _) = true
is_enqueue_intent_key _ = false

module _ ⦃env : Env⦄ {I : Contents → Type 0} (g : Ignores is_enqueue_intent_key I) where
  pub Keeps-put_enqueue_intent : (i : EnqueueIntentRecord) → Keeps I (put_enqueue_intent i)
  unfolding put_enqueue_intent
  Keeps-put_enqueue_intent i = Keeps-put_ignored is_enqueue_intent_key g _ _ refl

  pub Keeps-delete_enqueue_intent : (path : String) (n : ℕ) → Keeps I (delete_enqueue_intent path n)
  unfolding delete_enqueue_intent
  Keeps-delete_enqueue_intent path n = Keeps-delete_ignored is_enqueue_intent_key g _ refl

module _ ⦃env : Env⦄ {P : Contents → Type 0} where
  pub Triple-put_enqueue_intent :
      (i : EnqueueIntentRecord) (R E : Contents → Type 0)
      → ((c : Contents)
          → P c
          → let d = update c (enqueue_intent_key i.path i.version) (some (intent_value i)) in
            R d × E c × E d)
      → Triple P (put_enqueue_intent i) (λ _. R) E
  unfolding put_enqueue_intent
  Triple-put_enqueue_intent i R E f =
      Triple-put (enqueue_intent_key i.path i.version) (intent_value i) R E f

  pub Triple-delete_enqueue_intent :
      (path : String) (n : ℕ) (R E : Contents → Type 0)
      → ((c : Contents)
          → P c
          → let d = update c (enqueue_intent_key path n) none in R d × E c × E d)
      → Triple P (delete_enqueue_intent path n) (λ _. R) E
  unfolding delete_enqueue_intent
  Triple-delete_enqueue_intent path n R E f = Triple-delete (enqueue_intent_key path n) R E f
