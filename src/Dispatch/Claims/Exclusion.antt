-- ===== src/Dispatch/Claims/Exclusion.antt =====
-- Operations that cannot be claimed (dispatcher.go).
use openbao_plugin_secrets_s.Prelude.{
  ℕ, ◌+◌, ◌≤◌, ◌≡◌, ◌≢◌, refl, ap, ◌∙◌, Bool, true, not, ◌&&◌, ◌||◌, Option, none, some, String,
  arith, string_eq, Bool-cases, inl, inr,
}
use openbao_plugin_secrets_s.Records.{OutboxRecord, second, GlobalConfig}
use openbao_plugin_secrets_s.Storage.{outbox_key, outbox_value, Contents, Env, pure, option}
use openbao_plugin_secrets_s.Storage.Triples.{
  Triple, Triple-bind, Triple-pure, Triple-option, Triple-if, Triple-weaken, Triple-never,
  Triple-then,
}
use openbao_plugin_secrets_s.Storage.Reading.{Found}
use openbao_plugin_secrets_s.Outbox.Records.{
  normalize_outbox_defaults, is_outbox_claim_active, is_queued_outbox_state,
}
use openbao_plugin_secrets_s.Outbox.Records.Frame.{Keeps-delete_outbox}
use openbao_plugin_secrets_s.Outbox.Records.Reads.{Triple-get_outbox}
use openbao_plugin_secrets_s.Config.Reads.{InForce, Triple-read_global_config}
use openbao_plugin_secrets_s.Dispatch.Claims.{
  with_claim, outbox_claim_lease, claim_outbox_record, claim_blocked_by_global_switch,
  claim_supported, claim_due, discard_unsupported_outbox_operation,
  claim_dispatchable_outbox_record, is_supported_operation, outbox_record_due,
}

-- Every configuration in force disables the plugin or has the restore guard up.
abbrev pub SwitchedOff : Contents → Type 0
SwitchedOff c = (cfg : GlobalConfig) → InForce c cfg → (cfg.disabled || cfg.restore_guard) ≡ true

module _ ⦃env : Env⦄ where
  abbrev Anything : Contents → Type 0
  Anything c = Unit {0}

  abbrev NoClaim : Option OutboxRecord → Contents → Type 0
  NoClaim o c = o ≡ none

  discard_claims_none :
      (P : Contents → Type 0) (r : OutboxRecord)
      → Triple P (discard_unsupported_outbox_operation r) NoClaim Anything
  unfolding discard_unsupported_outbox_operation
  discard_claims_none P r =
      Triple-weaken _
        (Triple-then {P = Anything} _ _ (Keeps-delete_outbox (λ c k v e h. tt) r) (λ c h. tt)
          λ _. Triple-pure none (λ c h. refl))
        (λ c h. tt) (λ a c h. h) (λ c h. h)

  SwitchedOff-supported :
      (r : OutboxRecord) (owner : String) (now : ℕ)
      → Triple SwitchedOff (claim_supported r owner now) NoClaim Anything
  unfolding claim_supported claim_blocked_by_global_switch
  SwitchedOff-supported r owner now =
      Triple-bind (λ b c. b ≡ true) _ _
        (Triple-bind _ _ _
          (Triple-weaken _ (Triple-read_global_config SwitchedOff) (λ c h. h) (λ a c h. h)
            (λ c h. tt))
          λ cfg. Triple-pure _ (λ c h. h.0 cfg h.1))
        λ b.
          Triple-if b _ _ (λ e. Triple-pure none (λ c h. refl))
            λ e. Triple-never _ (λ c h. cc (e, h))

  -- While the plugin is disabled or its restore guard is up, no operation is claimed, whatever is
  -- stored and whichever operation is asked for.
  pub claim_dispatchable-SwitchedOff :
      (id owner : String) (now : ℕ)
      → Triple SwitchedOff
          (claim_dispatchable_outbox_record id owner now)
          (λ o c. o ≡ none)
          (λ c. Unit {0})
  unfolding claim_dispatchable_outbox_record claim_due
  claim_dispatchable-SwitchedOff id owner now =
      Triple-bind _ _ _
        (Triple-weaken _ (Triple-get_outbox SwitchedOff id) (λ c h. h) (λ a c h. h) (λ c h. tt))
        λ o.
          Triple-option o _ _ (λ _. Triple-pure none (λ c h. refl))
            λ r _.
              Triple-if (not (is_queued_outbox_state r.state) || not (outbox_record_due r now)) _ _
                (λ _. Triple-pure none (λ c h. refl))
                λ _.
                  Triple-if (not (is_supported_operation r)) _ _ (λ _. discard_claims_none _ r)
                    λ _.
                      Triple-weaken _ (SwitchedOff-supported r owner now) (λ c h. h.0) (λ a c h. h)
                        (λ c h. h)

both_true : (a b : Bool) → a ≡ true → b ≡ true → (a && b) ≡ true
both_true a b p q = ground arith

same_claimable :
    (x : OutboxRecord) (now : ℕ)
    → (is_outbox_claim_active (normalize_outbox_defaults x) now
        && is_supported_operation (normalize_outbox_defaults x))
      ≡ (is_outbox_claim_active x now && is_supported_operation x)
unfolding is_outbox_claim_active
same_claimable x now = refl

lease_active :
    (r : OutboxRecord) (owner : String) (now later : ℕ)
    → owner ≢ ""
    → later + second ≤ now + outbox_claim_lease
    → is_outbox_claim_active (with_claim owner now r) later ≡ true
unfolding is_outbox_claim_active
lease_active r owner now later named h = grind (arith, string_eq.same_iff owner "")

module _ ⦃env : Env⦄ (c0 : Contents) where
  abbrev Unclaimed : Option OutboxRecord → Contents → Type 0
  Unclaimed o c = (o ≡ none) × (c ≡ c0)

  active_supported :
      (P : Contents → Type 0) (x : OutboxRecord) (owner : String) (now : ℕ)
      → is_outbox_claim_active x now ≡ true
      → ((c : Contents) → P c → c ≡ c0)
      → Triple P (claim_supported x owner now) Unclaimed (λ c. c ≡ c0)
  unfolding claim_supported claim_blocked_by_global_switch claim_outbox_record
  active_supported P x owner now a f =
      Triple-weaken _
        (Triple-bind (λ b c. c ≡ c0) _ _
          (Triple-bind _ _ _ (Triple-read_global_config (λ c. c ≡ c0))
            λ cfg. Triple-pure _ (λ c h. h.0))
          λ b.
            Triple-if b _ _ (λ _. Triple-pure none (λ c h. (refl, h)))
              λ _.
                Triple-if (is_outbox_claim_active x now) _ _
                  (λ _. Triple-pure none (λ c h. (refl, h))) λ e. cc (e, a))
        f (λ a c h. h) (λ c h. h)

  active_due :
      (P : Contents → Type 0) (x : OutboxRecord) (owner : String) (now : ℕ)
      → is_outbox_claim_active x now ≡ true
      → is_supported_operation x ≡ true
      → ((c : Contents) → P c → c ≡ c0)
      → Triple P (claim_due owner now x) Unclaimed (λ c. c ≡ c0)
  unfolding claim_due
  active_due P x owner now a supported f =
      Triple-if (not (is_queued_outbox_state x.state) || not (outbox_record_due x now)) _ _
        (λ _. Triple-pure none (λ c h. (refl, f c h)))
        λ _.
          Triple-if (not (is_supported_operation x)) _ _ (λ e. cc (e, supported))
            λ _. active_supported P x owner now a f

  read_back :
      (id : String) (x r : OutboxRecord) (c : Contents)
      → c0 (outbox_key id) ≡ some (outbox_value x)
      → c ≡ c0
      → Found outbox_value normalize_outbox_defaults (outbox_key id) (some r) c
      → r ≡ normalize_outbox_defaults x
  read_back id x r c e p (y, q, t) =
      let at_key = ap (λ (d : Contents). d (outbox_key id)) p in
      let same : y ≡ x = cc (t, e, at_key) in q ∙ ap normalize_outbox_defaults same

  active-Found :
      (id : String) (x : OutboxRecord) (owner : String) (now : ℕ) (o : Option OutboxRecord)
      → c0 (outbox_key id) ≡ some (outbox_value x)
      → is_outbox_claim_active x now ≡ true
      → is_supported_operation x ≡ true
      → Triple
          (λ c. (c ≡ c0) × Found outbox_value normalize_outbox_defaults (outbox_key id) o c)
          (option o (pure none) (claim_due owner now))
          Unclaimed
          (λ c. c ≡ c0)
  active-Found id x owner now none e a s = Triple-pure none (λ c h. (refl, h.0))
  active-Found id x owner now (some r) e a s =
      elim (Bool-cases (is_outbox_claim_active r now && is_supported_operation r)) [
        | inl t ↦ active_due _ r owner now (ground arith) (ground arith) (λ c h. h.0)
        | inr n ↦ Triple-never _ λ c h. cc (
          n,
          ap (λ z. is_outbox_claim_active z now && is_supported_operation z)
              (read_back id x r c e h.0 h.1),
          same_claimable x now,
          both_true _ _ a s,
        )
      ]

-- An operation that a worker claimed cannot be claimed again, by anyone, before a second short of
-- the end of its lease: such a claim gets nothing and leaves the storage as it was.
pub claim-exclusive :
    ⦃env : Env⦄ (r : OutboxRecord) (id owner other : String) (now later : ℕ) (c0 : Contents)
    → owner ≢ ""
    → is_supported_operation r ≡ true
    → c0 (outbox_key id) ≡ some (outbox_value (with_claim owner now r))
    → later + second ≤ now + outbox_claim_lease
    → Triple
        (λ c. c ≡ c0)
        (claim_dispatchable_outbox_record id other later)
        (λ o c. (o ≡ none) × (c ≡ c0))
        (λ c. c ≡ c0)
unfolding claim_dispatchable_outbox_record
claim-exclusive r id owner other now later c0 named supported stored h =
    Triple-bind _ _ _ (Triple-get_outbox (λ c. c ≡ c0) id) λ o.
      active-Found c0 id (with_claim owner now r) other later o stored
        (lease_active r owner now later named h) supported
