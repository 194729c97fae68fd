-- ===== src/ConfigRequests/Epochs.antt =====
-- A request that lowers the restore guard puts a new restore epoch in force (path_config.go).
use openbao_plugin_secrets_s.Prelude.{
  ◌≡◌, inl, inr, Bool, false, not, ◌&&◌, some, String, Bool-cases, arith,
}
use openbao_plugin_secrets_s.Records.{GlobalConfig}
use openbao_plugin_secrets_s.Storage.{config_key, config_value, Contents, update, left, Env}
use openbao_plugin_secrets_s.Storage.Keeps.{Keeps, Keeps-now}
use openbao_plugin_secrets_s.Storage.Triples.{
  Triple, Triple-bind, Triple-pure, Triple-option, Triple-throw, Triple-then, Keeps-Triple,
  update_same,
}
use openbao_plugin_secrets_s.Storage.Transactions.{Transactions}
use openbao_plugin_secrets_s.Payload.{Codec}
use openbao_plugin_secrets_s.Config.{default_global_config}
use openbao_plugin_secrets_s.Config.Reads.{InForce, Triple-read_global_config}
use openbao_plugin_secrets_s.RuntimeState.Epochs.{
  EpochIs, Fenced, Draws, Keeps-Fenced, not_EpochIs-update, not_EpochIs-new,
}
use openbao_plugin_secrets_s.Requests.{FieldData}
use openbao_plugin_secrets_s.ConfigRequests.{
  path_config_write, path_config_restore_guard_acknowledge_write, apply_config_fields,
  commit_global_config,
}
use openbao_plugin_secrets_s.ConfigRequests.Commit.{
  Keeps-apply_restore_guard, Triple-commit_global_config,
}

-- The configuration that a request read, beside the invariant.
abbrev Read : String → GlobalConfig → Contents → Type 0
Read e previous c = Fenced e c × InForce c previous

guard_down :
    (e : String) (c : Contents) (previous : GlobalConfig)
    → previous.restore_guard ≡ false
    → Read e previous c
    → ¬ (EpochIs e c)
unfolding default_global_config
guard_down e c previous down (inl (cfg, p, g), inl (q, d)) = cc (p, q)
guard_down e c previous down (inl (cfg, p, g), inr q) = cc (p, q, g, down)
guard_down e c previous down (inr n, f) = n

plain-Fenced :
    (e : String) (previous cfg : GlobalConfig) (c : Contents)
    → (previous.restore_guard && not cfg.restore_guard) ≡ false
    → Read e previous c
    → Fenced e (update c config_key (some (config_value cfg)))
plain-Fenced e previous cfg c same h = elim (Bool-cases cfg.restore_guard) [
  | inl up ↦ inl (cfg, update_same c config_key (some (config_value cfg)), up)
  | inr down ↦
      let was : previous.restore_guard ≡ false = ground arith in
      inr (not_EpochIs-update e c config_key _ (λ p. cc p) (guard_down e c previous was h))
]

module _ ⦃env : Env⦄ (t : Transactions env) (e : String) (draws : Draws env (λ v. ¬ (v ≡ e))) where
  Triple-commit-Fenced :
      (previous cfg : GlobalConfig) (rotate : Bool)
      → (rotate ≡ false → (previous.restore_guard && not cfg.restore_guard) ≡ false)
      → Triple (Read e previous) (commit_global_config t cfg rotate) (λ _. Fenced e) (Fenced e)
  Triple-commit-Fenced previous cfg rotate same =
      Triple-commit_global_config t cfg (λ c h. h.0) rotate draws
        (λ p c h. plain-Fenced e previous cfg c (same p) h)
        λ _ c x other h.
          inr (not_EpochIs-update e _ config_key _ (λ p. cc p) (not_EpochIs-new e c x other))

  write-Fenced : ⦃codec : Codec⦄ (d : FieldData) → Keeps (Fenced e) (path_config_write t d)
  unfolding path_config_write
  write-Fenced d =
      Keeps-Triple _
        (Triple-bind (Read e) _ _ (Triple-read_global_config (Fenced e)) λ previous.
          Triple-then _ _ (Keeps-apply_restore_guard _ _) (λ c h. h.0)
            λ guarded.
              Triple-option (apply_config_fields d guarded) _ _ (λ _. Triple-throw _ (λ c h. h.0))
                λ applied _.
                  Triple-then _ _ Keeps-now (λ c h. h.0)
                    λ time.
                      Triple-bind (λ _. Fenced e) _ _ (Triple-commit-Fenced previous _ _ (λ p. p))
                        λ epoch. Triple-pure _ (λ c h. h))
        (λ _ c h. h)

  acknowledge-Fenced : Keeps (Fenced e) (path_config_restore_guard_acknowledge_write t)
  unfolding path_config_restore_guard_acknowledge_write
  acknowledge-Fenced =
      Keeps-Triple _
        (Triple-then _ _ (Keeps-Fenced e draws) (λ c h. h)
          λ epoch. Triple-bind (Read e) _ _ (Triple-read_global_config (Fenced e)) λ previous.
            Triple-then _ _ Keeps-now (λ c h. h.0)
              λ time.
                Triple-bind (λ _. Fenced e) _ _
                  (Triple-commit-Fenced previous _ previous.restore_guard (λ p. ground arith))
                  λ rotated. Triple-pure _ (λ c h. h))
        (λ _ c h. h)

-- Where no new epoch that is drawn is `e`, a write of the configuration and an acknowledgement of the
-- restore guard keep it that the guard is up or the epoch in force is not `e`, wherever they stop:
-- an epoch that was in force under the guard is never in force without it.
pub config_requests-Fenced :
    ⦃env : Env⦄ ⦃codec : Codec⦄ (t : Transactions env) (e : String)
    → Draws env (λ v. ¬ (v ≡ e))
    → (d : FieldData) (s : env.State) → Fenced e (env.contents s)
    → Fenced e (env.contents (left (path_config_write t d s)))
      × Fenced e (env.contents (left (path_config_restore_guard_acknowledge_write t s)))
config_requests-Fenced t e draws d s h =
    ((write-Fenced t e draws d).at s h, (acknowledge-Fenced t e draws).at s h)
