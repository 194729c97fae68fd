-- ===== src/ConfigRequests/Validity.antt =====
-- The configurations that the requests accept and that the stored form gives (path_config.go).
use openbao_plugin_secrets_s.Prelude.{
  ℕ, ◌≤◌, ◌≡◌, refl, subst, inl, inr, Bool, true, false, Option, none, some, String, string_eq, ℤ,
  pos, negsuc, pos_part, at_least, arith, Bool-cases, leb,
}
use openbao_plugin_secrets_s.Records.{GlobalConfig}
use openbao_plugin_secrets_s.Storage.{option}
use openbao_plugin_secrets_s.Payload.{Codec}
use openbao_plugin_secrets_s.Requests.{FieldData, get_ok, as_bool, as_int, as_text, or_else}
use openbao_plugin_secrets_s.ConfigRequests.{
  validate_security_posture, validate_drift_repair_mode, validate_drift_reconcile_interval,
  StoredGlobalConfig, decoded_fields_valid, with_defaults, decode_stored_global_config, is_missing,
  with_field, apply_queue_capacity, apply_security_posture_config_field,
  reject_unknown_config_fields, apply_drift_repair, apply_drift_reconcile_interval,
  apply_drift_reconcile_batch, apply_drift_config_fields, apply_event_dispatch_config_fields,
  apply_config_fields,
}

pub record ValidSettings ⦃codec : Codec⦄ (posture mode interval : String) (batch operations : ℕ)
    : Type 0 where
  pub posture_valid : validate_security_posture posture ≡ true
  pub mode_valid : validate_drift_repair_mode mode ≡ true
  pub interval_valid : validate_drift_reconcile_interval interval ≡ true
  pub batch_valid : 1 ≤ batch
  pub operations_valid : 1 ≤ operations

abbrev pub IsValid : ⦃codec : Codec⦄ → GlobalConfig → Type 0
IsValid cfg =
    ValidSettings cfg.security_posture cfg.drift_repair cfg.drift_reconcile_interval
      cfg.drift_reconcile_batch cfg.event_dispatch_max_operations

module _ ⦃codec : Codec⦄ (cfg : GlobalConfig) (p : IsValid cfg) where
  -- A field that is accepted keeps the validity that its change keeps.
  with_field-keeps :
      {A : Type 0} (o : Option A) (valid : A → Bool) (change : A → GlobalConfig)
      (new : GlobalConfig)
      → ((a : A) → valid a ≡ true → IsValid (change a))
      → with_field o valid change cfg ≡ some new
      → IsValid new
  with_field-keeps none valid change new step e =
      let same : cfg ≡ new = cc e in subst IsValid same p
  with_field-keeps (some a) valid change new step e = elim (Bool-cases (valid a)) [
    | inl ok ↦ let same : change a ≡ new = cc (rw ok at e) in subst IsValid same (step a ok)
    | inr bad ↦ cc (rw bad at e)
  ]

module _ (P : GlobalConfig → Type 0) (f : GlobalConfig → Option GlobalConfig)
    (keeps : (a b : GlobalConfig) → f a ≡ some b → P a → P b) where
  -- A test that is followed by `f`.
  then-keeps :
      (o : Option GlobalConfig) (new : GlobalConfig)
      → ((a : GlobalConfig) → o ≡ some a → P a)
      → option o none f ≡ some new
      → P new
  then-keeps none new h e = cc e
  then-keeps (some a) new h e = keeps a new e (h a refl)

at_least_one : (x : ℤ) → at_least 1 x ≡ true → 1 ≤ pos_part x
at_least_one (pos n) e = ground arith
at_least_one (negsuc n) e = cc e

module _ ⦃codec : Codec⦄ where
  posture-IsValid :
      (d : FieldData) (a b : GlobalConfig)
      → apply_security_posture_config_field d a ≡ some b
      → IsValid a
      → IsValid b
  unfolding apply_security_posture_config_field
  posture-IsValid d a b e v = elim (Bool-cases (reject_unknown_config_fields d)) [
    | inl known ↦
        with_field-keeps a v (as_text (get_ok d "security_posture")) _ _ b
          (λ x ok. record {
            posture_valid = ok;
            mode_valid = v.mode_valid;
            interval_valid = v.interval_valid;
            batch_valid = v.batch_valid;
            operations_valid = v.operations_valid;
          })
          (rw known at e)
    | inr bad ↦ cc (rw bad at e)
  ]

  queue-IsValid :
      (d : FieldData) (a b : GlobalConfig)
      → apply_queue_capacity d a ≡ some b
      → IsValid a
      → IsValid b
  unfolding apply_queue_capacity
  queue-IsValid d a b e v =
      with_field-keeps a v (as_int (get_ok d "queue_capacity")) _ _ b (λ x ok. v) e

  drift-IsValid :
      (d : FieldData) (a b : GlobalConfig)
      → apply_drift_config_fields d a ≡ some b
      → IsValid a
      → IsValid b
  unfolding apply_drift_config_fields apply_drift_repair apply_drift_reconcile_interval
      apply_drift_reconcile_batch
  drift-IsValid d a b e v =
      then-keeps IsValid
        (λ x. option (apply_drift_reconcile_interval d x) none (apply_drift_reconcile_batch d))
        (λ x y f w.
          then-keeps IsValid (apply_drift_reconcile_batch d)
            (λ p q g z.
              with_field-keeps p z (as_int (get_ok d "drift_reconcile_batch")) _ _ q
                (λ n ok. record {
                  posture_valid = z.posture_valid;
                  mode_valid = z.mode_valid;
                  interval_valid = z.interval_valid;
                  batch_valid = at_least_one n ok;
                  operations_valid = z.operations_valid;
                })
                g)
            (apply_drift_reconcile_interval d x) y
            (λ q g.
              with_field-keeps x w (as_text (get_ok d "drift_reconcile_interval")) _ _ q
                (λ n ok. record {
                  posture_valid = w.posture_valid;
                  mode_valid = w.mode_valid;
                  interval_valid = ok;
                  batch_valid = w.batch_valid;
                  operations_valid = w.operations_valid;
                })
                g)
            f)
        (apply_drift_repair d a) b
        (λ q g.
          with_field-keeps a v (as_text (get_ok d "drift_repair")) _ _ q
            (λ n ok. record {
              posture_valid = v.posture_valid;
              mode_valid = ok;
              interval_valid = v.interval_valid;
              batch_valid = v.batch_valid;
              operations_valid = v.operations_valid;
            })
            g)
        e

  events-IsValid :
      (d : FieldData) (a b : GlobalConfig)
      → apply_event_dispatch_config_fields d a ≡ some b
      → IsValid a
      → IsValid b
  unfolding apply_event_dispatch_config_fields
  events-IsValid d a b e v =
      let enabled : GlobalConfig = record a {
        event_dispatch_enabled =
            or_else a.event_dispatch_enabled (as_bool (get_ok d "event_dispatch_enabled"));
      } in
      with_field-keeps enabled v (as_int (get_ok d "event_dispatch_max_operations")) _ _ b
        (λ n ok. record {
          posture_valid = v.posture_valid;
          mode_valid = v.mode_valid;
          interval_valid = v.interval_valid;
          batch_valid = v.batch_valid;
          operations_valid = at_least_one n ok;
        })
        e

  -- The fields of a request that are accepted make a valid configuration of a valid one.
  pub apply_config_fields-IsValid :
      (d : FieldData) (a b : GlobalConfig)
      → apply_config_fields d a ≡ some b
      → IsValid a
      → IsValid b
  unfolding apply_config_fields
  apply_config_fields-IsValid d a b e v =
      then-keeps IsValid
        (λ x.
          option (apply_security_posture_config_field d x) none (λ y.
            option (apply_drift_config_fields d y) none (apply_event_dispatch_config_fields d)))
        (λ x z f w.
          then-keeps IsValid
            (λ y.
              option (apply_drift_config_fields d y) none (apply_event_dispatch_config_fields d))
            (λ y z g w.
              then-keeps IsValid (apply_event_dispatch_config_fields d) (events-IsValid d)
                (apply_drift_config_fields d y) z (λ q h. drift-IsValid d y q h w) g)
            (apply_security_posture_config_field d x) z (λ q h. posture-IsValid d x q h w) f)
        (apply_queue_capacity d a) b (λ q h. queue-IsValid d a q h v) e

-- The stored form of a configuration, without a missing field.
unfoldable pub encode_global_config : GlobalConfig → StoredGlobalConfig
encode_global_config cfg = record {
  security_posture = some cfg.security_posture;
  disabled = cfg.disabled;
  restore_guard = some cfg.restore_guard;
  restore_guard_acknowledged_time = cfg.restore_guard_acknowledged_time;
  queue_capacity = some (pos cfg.queue_capacity);
  drift_repair = some cfg.drift_repair;
  drift_reconcile_interval = some cfg.drift_reconcile_interval;
  drift_reconcile_batch = some (pos cfg.drift_reconcile_batch);
  event_dispatch_enabled = some cfg.event_dispatch_enabled;
  event_dispatch_max_operations = some (pos cfg.event_dispatch_max_operations);
  updated_time = cfg.updated_time;
}

module _ ⦃codec : Codec⦄ where
  -- The stored form of a valid configuration is read as that configuration, and as one in which no field
  -- is missing.
  pub decode_stored_global_config-encode :
      (cfg : GlobalConfig)
      → IsValid cfg
      → decode_stored_global_config (encode_global_config cfg) ≡ some (cfg, false)
  unfolding decode_stored_global_config encode_global_config with_defaults decoded_fields_valid
      is_missing
  decode_stored_global_config-encode cfg v =
      let batch : leb 1 cfg.drift_reconcile_batch ≡ true = ground arith in
      let operations : leb 1 cfg.event_dispatch_max_operations ≡ true = ground arith in
      rw (v.posture_valid, v.mode_valid, v.interval_valid, batch, operations) refl
