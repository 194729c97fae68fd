-- ===== src/RuntimeState/Epochs.antt =====
-- The restore epoch and the restore guard (runtime_state.go): an epoch that was in force while the guard
-- was up is not in force once it is down.
use openbao_plugin_secrets_s.Prelude.{
  ◌≡◌, sym, ◌∙◌, ◌⊎◌, inl, inr, true, Option, none, some, String, ◌==◌, string_eq,
}
use openbao_plugin_secrets_s.Records.{Stamp, GlobalConfig, RestoreEpochRecord}
use openbao_plugin_secrets_s.Storage.{
  config_key, restore_epoch_key, storage_schema_key, Value, config_value, epoch_value, Key,
  Contents, update, Env,
}
use openbao_plugin_secrets_s.Storage.Keeps.{
  Keeps, Keeps-bind, Keeps-put, Keeps-pure, Keeps-if, Keeps-option, Keeps-throw, Keeps-get,
  Keeps-now,
}
use openbao_plugin_secrets_s.Storage.Triples.{
  Triple, Triple-bind, Triple-pure, Triple-put, Triple-given, Triple-get, Triple-option,
  Triple-weaken, Triple-Keeps, Keeps-Triple, update_same, update_other,
}
use openbao_plugin_secrets_s.Config.Frame.{Keeps-decode}
use openbao_plugin_secrets_s.RuntimeState.{
  new_runtime_id, rotate_restore_epoch, ensure_storage_schema, new_schema, validate_storage_schema,
  ensure_restore_epoch, ensure_global_config, ensure_runtime_state,
}
use openbao_plugin_secrets_s.RuntimeState.Frame.{Keeps-decode_schema, Keeps-decode_epoch}

abbrev pub GuardUp : Contents → Type 0
GuardUp c =
    (cfg : GlobalConfig) × (c config_key ≡ some (config_value cfg)) × (cfg.restore_guard ≡ true)

abbrev pub EpochIs : String → Contents → Type 0
EpochIs e c =
    (r : RestoreEpochRecord) × (c restore_epoch_key ≡ some (epoch_value r)) × (r.epoch ≡ e)

-- The guard is up, or the epoch is another.
abbrev pub Fenced : String → Contents → Type 0
Fenced e c = GuardUp c ⊎ ¬ (EpochIs e c)

-- Every epoch that is drawn has a property.
abbrev pub Draws : Env → (String → Type 0) → Type 1
Draws env Drawn =
    (P : Contents → Type 0)
    → Triple ⦃env = env⦄ P (new_runtime_id ⦃env = env⦄ "epoch") (λ v c. P c × Drawn v) P

pub not_EpochIs-update :
    (e : String) (c : Contents) (k : Key) (v : Option Value)
    → ¬ (k ≡ restore_epoch_key)
    → ¬ (EpochIs e c)
    → ¬ (EpochIs e (update c k v))
not_EpochIs-update e c k v other n (r, p, q) =
    n (r, sym (update_other c k restore_epoch_key v other) ∙ p, q)

pub not_EpochIs-new :
    (e : String) (c : Contents) (x : RestoreEpochRecord)
    → ¬ (x.epoch ≡ e)
    → ¬ (EpochIs e (update c restore_epoch_key (some (epoch_value x))))
not_EpochIs-new e c x other (r, p, q) =
    let same : some (epoch_value x) ≡ some (epoch_value r) =
      sym (update_same c restore_epoch_key (some (epoch_value x))) ∙ p in
    other (cc (same, q))

Fenced-update :
    (e : String) (c : Contents) (k : Key) (v : Option Value)
    → ¬ (k ≡ restore_epoch_key)
    → ¬ (k ≡ config_key)
    → Fenced e c
    → Fenced e (update c k v)
Fenced-update e c k v n m (inl (cfg, p, g)) = inl (cfg, update_other c k config_key v m ∙ p, g)
Fenced-update e c k v n m (inr f) = inr (not_EpochIs-update e c k v n f)

-- Without a stored configuration the guard is down.
Fenced-first_config :
    (e : String) (c : Contents) (v : Value)
    → c config_key ≡ none
    → Fenced e c
    → Fenced e (update c config_key (some v))
Fenced-first_config e c v p (inl (cfg, q, g)) = cc (p, q)
Fenced-first_config e c v p (inr f) = inr (not_EpochIs-update e c config_key (some v) (λ q. cc q) f)

module _ ⦃env : Env⦄ where
  pub Triple-rotate_restore_epoch :
      {P R E : Contents → Type 0} {Drawn : String → Type 0} (now : Stamp)
      → Draws env Drawn
      → ((c : Contents) (x : RestoreEpochRecord)
          → Drawn x.epoch
          → P c
          → R (update c restore_epoch_key (some (epoch_value x))))
      → ((c : Contents) → P c → E c)
      → ((c : Contents) → R c → E c)
      → Triple P (rotate_restore_epoch now) (λ _. R) E
  unfolding rotate_restore_epoch
  Triple-rotate_restore_epoch {P} {R} {E} {Drawn} now draws step before after =
      Triple-bind (λ v c. P c × Drawn v) _ _
        (Triple-weaken {E' = E} _ (draws P) (λ c p. p) (λ v c p. p) before)
        λ epoch. Triple-given (Drawn epoch) _ λ d.
          Triple-bind (λ _. R) _ _
            (Triple-put _ _ R E (λ c p. (step c _ d p, before c p, after _ (step c _ d p))))
            λ _. Triple-pure _ (λ c h. h)

  module _ (e : String) (draws : Draws env (λ v. ¬ (v ≡ e))) where
    Keeps-schema : (now : Stamp) → Keeps (Fenced e) (ensure_storage_schema now)
    unfolding ensure_storage_schema new_schema
    Keeps-schema now = Keeps-bind _ _ (Keeps-get storage_schema_key) λ entry.
        Keeps-option entry _ _
          (Keeps-bind _ _
            (Keeps-put storage_schema_key _
              (λ c h. Fenced-update e c storage_schema_key _ (λ p. cc p) (λ p. cc p) h))
            λ _. Keeps-pure _)
          λ v.
            Keeps-bind _ _ (Keeps-decode_schema v)
              λ r. Keeps-if (validate_storage_schema r) _ _ (λ _. Keeps-pure r) λ _. Keeps-throw _

    Keeps-epoch : (now : Stamp) → Keeps (Fenced e) (ensure_restore_epoch now)
    unfolding ensure_restore_epoch
    Keeps-epoch now = Keeps-bind _ _ (Keeps-get restore_epoch_key) λ entry.
        Keeps-option entry _ _
          (Keeps-Triple _
            (Triple-rotate_restore_epoch now draws (λ c x d h. inr (not_EpochIs-new e c x d))
              (λ c h. h) (λ c h. h))
            (λ _ c h. h))
          λ v.
            Keeps-bind _ _ (Keeps-decode_epoch v)
              λ r. Keeps-if (r.epoch == "") _ _ (λ _. Keeps-throw _) λ _. Keeps-pure r

    Keeps-config : (now : Stamp) → Keeps (Fenced e) (ensure_global_config now)
    unfolding ensure_global_config
    Keeps-config now =
        Keeps-Triple _
          (Triple-bind (λ o c. Fenced e c × (o ≡ c config_key)) _ _ (Triple-get config_key)
            λ entry.
              Triple-option entry _ _
                (λ p. Triple-put config_key _ (Fenced e) (Fenced e) λ c h.
                  let stored = Fenced-first_config e c _ (sym h.1 ∙ p) h.0 in (stored, h.0, stored))
                λ v p.
                  Triple-Keeps _ (Keeps-bind _ _ (Keeps-decode v) λ _. Keeps-pure tt) (λ _ c h. h.0)
                    (λ c h. h.0))
          (λ _ c h. h)

    pub Keeps-Fenced : Keeps (Fenced e) ensure_runtime_state
    unfolding ensure_runtime_state
    Keeps-Fenced = Keeps-bind _ _ Keeps-now λ time. Keeps-bind _ _ (Keeps-schema _) λ _.
        Keeps-bind _ _ (Keeps-epoch _) λ epoch. Keeps-bind _ _ (Keeps-config _) λ _. Keeps-pure _
