-- ===== src/ConfigRequests/Stored.antt =====
-- The stored configuration is valid, whatever is requested (path_config.go).
use openbao_plugin_secrets_s.Prelude.{
  ◌≡◌, sym, subst, ◌∙◌, inl, inr, Bool, true, false, Option, none, some,
}
use openbao_plugin_secrets_s.Records.{GlobalConfig}
use openbao_plugin_secrets_s.Storage.{config_key, config_value, Contents, update, left, Env}
use openbao_plugin_secrets_s.Storage.Keeps.{Keeps, Keeps-now}
use openbao_plugin_secrets_s.Storage.Triples.{
  Triple, Triple-bind, Triple-pure, Triple-option, Triple-throw, Triple-then, Triple-given,
  Triple-weaken, Triple-Keeps, Keeps-Triple, update_same,
}
use openbao_plugin_secrets_s.Storage.Transactions.{Transactions}
use openbao_plugin_secrets_s.Payload.{Codec}
use openbao_plugin_secrets_s.Config.{default_global_config}
use openbao_plugin_secrets_s.Config.Reads.{InForce, Triple-read_global_config}
use openbao_plugin_secrets_s.RuntimeState.Frame.{Keeps-new_runtime_id}
use openbao_plugin_secrets_s.RuntimeState.Epochs.{Draws}
use openbao_plugin_secrets_s.Requests.{FieldData}
use openbao_plugin_secrets_s.ConfigRequests.{
  apply_restore_guard, apply_config_fields, path_config_write,
}
use openbao_plugin_secrets_s.ConfigRequests.Commit.{Triple-commit_global_config}
use openbao_plugin_secrets_s.ConfigRequests.Validity.{IsValid, apply_config_fields-IsValid}

abbrev pub StoredValid : ⦃codec : Codec⦄ → Contents → Type 0
StoredValid c = (cfg : GlobalConfig) → c config_key ≡ some (config_value cfg) → IsValid cfg

module _ ⦃codec : Codec⦄ where
  InForce-IsValid :
      (c : Contents) (cfg : GlobalConfig)
      → IsValid default_global_config
      → StoredValid c
      → InForce c cfg
      → IsValid cfg
  InForce-IsValid c cfg d v (inl (_, e)) = subst IsValid (sym e) d
  InForce-IsValid c cfg d v (inr e) = v cfg e

  StoredValid-config :
      (c : Contents) (cfg : GlobalConfig)
      → IsValid cfg
      → StoredValid (update c config_key (some (config_value cfg)))
  StoredValid-config c cfg v other e =
      let same : some (config_value cfg) ≡ some (config_value other) =
        sym (update_same c config_key (some (config_value cfg))) ∙ e in
      let equal : cfg ≡ other = cc same in subst IsValid equal v

module _ ⦃env : Env⦄ ⦃codec : Codec⦄ where
  -- The validity of a configuration does not depend on its switches.
  Triple-apply_restore_guard :
      {P : Contents → Type 0} (o : Option Bool) (cfg : GlobalConfig)
      → IsValid cfg
      → Triple P (apply_restore_guard o cfg) (λ g c. P c × IsValid g) P
  unfolding apply_restore_guard
  Triple-apply_restore_guard none cfg v = Triple-pure cfg (λ c p. (p, v))
  Triple-apply_restore_guard (some true) cfg v = Triple-pure _ (λ c p. (p, v))
  Triple-apply_restore_guard (some false) cfg v =
      Triple-then _ _ Keeps-now (λ c p. p) λ time. Triple-pure _ (λ c p. (p, v))

  module _ (t : Transactions env) (default_valid : IsValid default_global_config) where
    write-StoredValid :
        Draws env (λ _. Unit {0}) → (d : FieldData) → Keeps StoredValid (path_config_write t d)
    unfolding path_config_write
    write-StoredValid draws d =
        Keeps-Triple _
          (Triple-bind (λ cfg c. StoredValid c × IsValid cfg) _ _
            (Triple-weaken {E' = StoredValid} _ (Triple-read_global_config StoredValid) (λ c h. h)
              (λ cfg c h. (h.0, InForce-IsValid c cfg default_valid h.0 h.1)) (λ c h. h))
            λ previous. Triple-given (IsValid previous) _ λ v.
              Triple-bind (λ g c. StoredValid c × IsValid g) _ _ (Triple-apply_restore_guard _ _ v)
                λ guarded. Triple-given (IsValid guarded) _ λ g.
                  Triple-option (apply_config_fields d guarded) _ _ (λ _. Triple-throw _ (λ c h. h))
                    λ applied e.
                      let a = apply_config_fields-IsValid d guarded applied e g in
                      Triple-then _ _ Keeps-now (λ c h. h)
                        λ time.
                          Triple-bind (λ _. StoredValid) _ _
                            (Triple-commit_global_config t _ (λ c h. h) _ draws
                              (λ _ c h. StoredValid-config c _ a)
                              λ _ c x _ h. StoredValid-config _ _ a)
                            λ epoch. Triple-pure _ (λ c h. h))
          (λ _ c h. h)

draws_any : ⦃env : Env⦄ → Draws env (λ _. Unit {0})
draws_any P = Triple-Keeps _ (Keeps-new_runtime_id "epoch") (λ v c p. (p, tt)) (λ c p. p)

-- If the default configuration is valid and so is the stored one, then after any write of the
-- configuration the stored one is valid, wherever the write stops.
pub path_config_write-StoredValid :
    ⦃env : Env⦄ ⦃codec : Codec⦄ (t : Transactions env)
    → IsValid default_global_config
    → (d : FieldData) (s : env.State) → StoredValid (env.contents s)
    → StoredValid (env.contents (left (path_config_write t d s)))
path_config_write-StoredValid t default_valid d s v =
    (write-StoredValid t default_valid draws_any d).at s v
