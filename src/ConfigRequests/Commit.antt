-- ===== src/ConfigRequests/Commit.antt =====
-- What a commit of the configuration leaves (commitGlobalConfig of path_config.go).
use openbao_plugin_secrets_s.Prelude.{
  ◌≡◌, refl, subst, sym, Bool, true, false, Option, none, some, String, Bool-cases, inl, inr, not,
}
use openbao_plugin_secrets_s.Records.{GlobalConfig, RestoreEpochRecord}
use openbao_plugin_secrets_s.Storage.{
  config_key, restore_epoch_key, config_value, epoch_value, Contents, update, Env,
}
use openbao_plugin_secrets_s.Storage.Keeps.{Keeps, Keeps-bind, Keeps-pure, Keeps-now}
use openbao_plugin_secrets_s.Storage.Triples.{
  Triple, Triple-bind, Triple-pure, Triple-put, Triple-if, Triple-throw,
}
use openbao_plugin_secrets_s.Storage.Transactions.{Transactions, Triple-with_transaction}
use openbao_plugin_secrets_s.RuntimeState.Epochs.{Draws, Triple-rotate_restore_epoch}
use openbao_plugin_secrets_s.ConfigRequests.{
  commit_global_config, put_global_config, apply_restore_guard,
}

module _ ⦃env : Env⦄ where
  pub Keeps-apply_restore_guard :
      {I : Contents → Type 0} (o : Option Bool) (cfg : GlobalConfig)
      → Keeps I (apply_restore_guard o cfg)
  unfolding apply_restore_guard
  Keeps-apply_restore_guard none cfg = Keeps-pure cfg
  Keeps-apply_restore_guard (some true) cfg = Keeps-pure _
  Keeps-apply_restore_guard (some false) cfg = Keeps-bind _ _ Keeps-now λ time. Keeps-pure _

module _ ⦃env : Env⦄ {P I : Contents → Type 0} (t : Transactions env) (cfg : GlobalConfig)
    (kept : (c : Contents) → P c → I c) where
  Triple-commit_kept :
      ((c : Contents) → P c → I (update c config_key (some (config_value cfg))))
      → Triple P (commit_global_config t cfg false) (λ _. I) I
  unfolding commit_global_config put_global_config
  Triple-commit_kept step =
      let body =
        Triple-bind (λ _. P) _ _ (Triple-pure none (λ c p. p))
          λ epoch.
            Triple-bind (λ _. I) _ _
              (Triple-put config_key (config_value cfg) I I (λ c p. (step c p, kept c p, step c p)))
              λ _. Triple-pure epoch (λ c i. i) in
      elim (Bool-cases t.is_transactional) [
        | inl on ↦ Triple-with_transaction t _ on body kept (λ _ c i. i)
        | inr off ↦ subst (λ m. Triple P m (λ _. I) I) (sym (t.without_transaction _ off)) body
      ]

  Triple-commit_rotated :
      {Drawn : String → Type 0}
      → Draws env Drawn
      → ((c : Contents) (x : RestoreEpochRecord)
          → Drawn x.epoch
          → P c
          → I (
              update
                (update c restore_epoch_key (some (epoch_value x)))
                config_key
                (some (config_value cfg))))
      → Triple P (commit_global_config t cfg true) (λ _. I) I
  unfolding commit_global_config put_global_config
  Triple-commit_rotated draws step =
      let Put : Contents → Type 0 = λ c. I (update c config_key (some (config_value cfg))) in
      Triple-if (not t.is_transactional) _ _ (λ _. Triple-throw _ kept)
        λ on.
          Triple-with_transaction {F = λ _. Unit} t _ (transactional t.is_transactional on)
            (Triple-bind (λ _. Put) _ _
              (Triple-bind (λ _. Put) _ _
                (Triple-rotate_restore_epoch cfg.updated_time draws step (λ c p. tt) (λ c p. tt))
                λ r. Triple-pure _ (λ c p. p))
              λ epoch.
                Triple-bind (λ _. I) _ _
                  (Triple-put config_key (config_value cfg) I (λ _. Unit) (λ c p. (p, tt, tt)))
                  λ _. Triple-pure epoch (λ c i. i))
            kept (λ _ c i. i)
    where
      transactional : (b : Bool) → not b ≡ false → b ≡ true
      transactional true e = refl
      transactional false e = cc e

  -- A commit leaves what stood before, or the new configuration, after a new epoch if it rotates it.
  pub Triple-commit_global_config :
      {Drawn : String → Type 0} (rotate : Bool)
      → Draws env Drawn
      → (rotate ≡ false → (c : Contents) → P c → I (update c config_key (some (config_value cfg))))
      → (rotate ≡ true
          → (c : Contents) (x : RestoreEpochRecord) → Drawn x.epoch
          → P c
          → I (
              update
                (update c restore_epoch_key (some (epoch_value x)))
                config_key
                (some (config_value cfg))))
      → Triple P (commit_global_config t cfg rotate) (λ _. I) I
  Triple-commit_global_config false draws plain rotated = Triple-commit_kept (plain refl)
  Triple-commit_global_config true draws plain rotated = Triple-commit_rotated draws (rotated refl)
