-- ===== src/PeriodicReconcile/Detection.antt =====
-- A sweep that only detects drift: the restore guard is up, or drift is not to be repaired
-- (internal/backend/periodic_reconcile.go).
use openbao_plugin_secrets_s.Prelude.{
  ℕ, zero, suc, ◌≡◌, Bool, true, false, ◌&&◌, not, List, [], ◌∷◌, Option, some, String, ◌==◌,
  string_eq, arith, pos_part, if◌then◌else◌,
}
use openbao_plugin_secrets_s.Records.{GlobalConfig, Stamp, format_time}
use openbao_plugin_secrets_s.Storage.{Key, Value, Contents, Env, pure, left}
use openbao_plugin_secrets_s.Storage.Keeps.{
  Keeps, Keeps-bind, Keeps-if, Keeps-pure, Keeps-option, Keeps-throw,
}
use openbao_plugin_secrets_s.Storage.Triples.{Ignores, Ignores-at}
use openbao_plugin_secrets_s.Status.Frame.{is_status_key}
use openbao_plugin_secrets_s.RuntimeState.Frame.{is_runtime_key}
use openbao_plugin_secrets_s.Outbox.Listing.{sort_by}
use openbao_plugin_secrets_s.Payload.{Codec}
use openbao_plugin_secrets_s.Providers.{Provider, Plugin}
use openbao_plugin_secrets_s.Reconcile.{ReconcileObjectResult}
use openbao_plugin_secrets_s.Reconcile.Frame.{
  Keeps-put_reconcile_status, Keeps-load_reconcile_lookup_context,
}
use openbao_plugin_secrets_s.Reconcile.Objects.Frame.{ReadsKeep, Keeps-reconcile_association_object}
use openbao_plugin_secrets_s.PeriodicReconcile.{
  DriftReconcileCandidate, candidate_lt, is_repairable_drift, enqueue_periodic_drift_repair,
  reconcile_from_storage, repair_result, sweep, periodic_drift_reconcile,
}
use openbao_plugin_secrets_s.PeriodicReconcile.Frame.{Keeps-drift_reconcile_candidates}

-- Whether the configuration lets a sweep enqueue repairs.
unfoldable pub repairs : GlobalConfig → Bool
repairs cfg = not cfg.restore_guard && cfg.drift_repair == "repair"

-- Every provider of the registry keeps the invariant while it reads.
abbrev pub ReadOnly : ⦃env : Env⦄ → (Contents → Type 0) → Plugin → Type 0
ReadOnly I plugin = (type : String) (p : Provider) → plugin.registry type ≡ some p → ReadsKeep I p

not_repairing :
    (guard repair repairable : Bool)
    → (repair && repairable) ≡ true
    → guard ≡ false
    → (not guard && repair) ≡ false
    → ⊥
not_repairing guard repair repairable wanted lowered e = ground arith

module _ ⦃env : Env⦄ ⦃codec : Codec⦄ {I : Contents → Type 0} (f : Ignores is_status_key I)
    (g : Ignores is_runtime_key I) where
  Keeps-reconcile_from_storage :
      (plugin : Plugin) (c : DriftReconcileCandidate) (cfg : GlobalConfig)
      → ReadOnly I plugin
      → Keeps I (reconcile_from_storage plugin c cfg)
  unfolding reconcile_from_storage
  Keeps-reconcile_from_storage plugin c cfg reads =
      Keeps-load_reconcile_lookup_context g plugin c.association (some cfg) _ _
        λ p registered context.
          Keeps-bind _ _
            (Keeps-reconcile_association_object c.association p context _ _ _
              (reads _ p registered))
            λ x. Keeps-pure _

  Keeps-no_repair :
      (cfg : GlobalConfig) (c : DriftReconcileCandidate) (now : Stamp) (repairable : Bool)
      → repairs cfg ≡ false
      → Keeps I (
          if cfg.drift_repair == "repair" && repairable
          then enqueue_periodic_drift_repair cfg c now
          else pure tt)
  unfolding repairs enqueue_periodic_drift_repair
  Keeps-no_repair cfg c now repairable e =
      Keeps-if (cfg.drift_repair == "repair" && repairable) _ _
        (λ wanted.
          Keeps-if cfg.restore_guard _ _ (λ _. Keeps-pure tt)
            λ lowered. absurd (not_repairing _ _ repairable wanted lowered e))
        λ _. Keeps-pure tt

  Keeps-repair_result :
      (plugin : Plugin) (cfg : GlobalConfig) (c : DriftReconcileCandidate) (now : Stamp)
      (xs : List ReconcileObjectResult)
      → repairs cfg ≡ false
      → Keeps I (repair_result plugin cfg c now xs)
  unfolding repair_result
  Keeps-repair_result plugin cfg c now [] e = Keeps-pure tt
  Keeps-repair_result plugin cfg c now (x ∷ xs) e =
      Keeps-bind _ _ (Keeps-put_reconcile_status f x now) λ _.
        Keeps-bind _ _ (Keeps-no_repair cfg c now (is_repairable_drift x) e)
          λ _. Keeps-repair_result plugin cfg c now xs e

  Keeps-sweep :
      (plugin : Plugin) (cfg : GlobalConfig) (now : Stamp) (limit : ℕ)
      (cs : List DriftReconcileCandidate)
      → ReadOnly I plugin
      → repairs cfg ≡ false
      → Keeps I (sweep plugin cfg now limit cs)
  unfolding sweep
  Keeps-sweep plugin cfg now zero cs reads e = Keeps-pure tt
  Keeps-sweep plugin cfg now (suc limit) [] reads e = Keeps-pure tt
  Keeps-sweep plugin cfg now (suc limit) (c ∷ cs) reads e =
      Keeps-bind _ _ (Keeps-reconcile_from_storage plugin c cfg reads) λ results.
        Keeps-bind _ _ (Keeps-repair_result plugin cfg c now results e)
          λ _. Keeps-sweep plugin cfg now limit cs reads e

  Keeps-periodic_drift_reconcile :
      (plugin : Plugin) (cfg : GlobalConfig) (now : ℕ)
      → ReadOnly I plugin
      → repairs cfg ≡ false
      → Keeps I (periodic_drift_reconcile plugin cfg now)
  unfolding periodic_drift_reconcile
  Keeps-periodic_drift_reconcile plugin cfg now reads e =
      Keeps-if (cfg.drift_repair == "off") _ _ (λ _. Keeps-pure tt)
        λ _.
          Keeps-option (codec.parse_duration cfg.drift_reconcile_interval) _ _ (Keeps-throw _)
            λ interval.
              Keeps-bind _ _ (Keeps-drift_reconcile_candidates cfg now (pos_part interval))
                λ candidates.
                  Keeps-sweep plugin cfg (format_time now) cfg.drift_reconcile_batch
                    (sort_by candidate_lt candidates) reads e

-- If the restore guard is up, or `drift_repair` is not "repair", and no registered provider changes the entry at
-- a key while it reads, then a sweep over the due objects, wherever it stops, leaves every entry as it was
-- that is neither a status nor the runtime state: it enqueues no repair, and changes no outbox record, no
-- intent, no source version and no record of an association or a destination.
pub periodic_drift_reconcile-detects :
    ⦃env : Env⦄ ⦃codec : Codec⦄ (plugin : Plugin) (cfg : GlobalConfig) (now : ℕ) (k : Key)
    (o : Option Value)
    → repairs cfg ≡ false
    → is_status_key k ≡ false
    → is_runtime_key k ≡ false
    → ReadOnly (λ c. c k ≡ o) plugin
    → (s : env.State) → env.contents s k ≡ o
    → env.contents (left (periodic_drift_reconcile plugin cfg now s)) k ≡ o
periodic_drift_reconcile-detects plugin cfg now k o e f g reads s h =
    (Keeps-periodic_drift_reconcile (Ignores-at is_status_key k (λ x. x ≡ o) f)
        (Ignores-at is_runtime_key k (λ x. x ≡ o) g) plugin cfg now reads e).at
      s h
