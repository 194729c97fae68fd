-- ===== src/Dispatch/Claims/Fencing.antt =====
-- Claims that are no longer the stored ones (dispatcher.go).
use openbao_plugin_secrets_s.Prelude.{
  ℕ, suc, ◌≤◌, ◌<◌, ◌≡◌, refl, sym, subst, ap, ◌∙◌, true, false, Option, none, some, String, arith,
  string_eq, nat_eq, Option-cases, inl, inr,
}
use openbao_plugin_secrets_s.Records.{OutboxRecord, stamp_eq}
use openbao_plugin_secrets_s.Storage.{outbox_key, outbox_value, Contents, Env, M, ◌>>=◌, pure}
use openbao_plugin_secrets_s.Storage.Keeps.{Keeps, Keeps-bind, Keeps-pure}
use openbao_plugin_secrets_s.Storage.Triples.{
  Triple, Triple-bind, Triple-pure, Triple-if, Keeps-Triple, Triple-never, Triple-then,
}
use openbao_plugin_secrets_s.Storage.Reading.{Found}
use openbao_plugin_secrets_s.Outbox.Records.{
  delete_outbox, normalize_outbox_defaults, is_outbox_claim_active,
}
use openbao_plugin_secrets_s.Outbox.Records.Frame.{Keeps-put_outbox}
use openbao_plugin_secrets_s.Outbox.Records.Reads.{Triple-get_outbox}
use openbao_plugin_secrets_s.Dispatch.Claims.{
  outbox_claim_matches, commit_if_outbox_claim_held, with_claim, claim_outbox_record, confirmed,
  cancel_claimed_outbox_operation,
}

-- The claim that `r` carries is not the one that is stored.
abbrev pub NotHeld : OutboxRecord → Contents → Type 0
NotHeld r c =
    (x : OutboxRecord)
    → c (outbox_key r.id) ≡ some (outbox_value x)
    → outbox_claim_matches (some x) r ≡ false

not_matching :
    (r : OutboxRecord) (c : Contents) (o : Option OutboxRecord)
    → NotHeld r c
    → Found outbox_value normalize_outbox_defaults (outbox_key r.id) o c
    → outbox_claim_matches o r ≡ false
unfolding outbox_claim_matches
not_matching r c none n f = refl
not_matching r c (some x) n (y, p, e) = rw p (n y e)

held_and_not :
    (r : OutboxRecord) (c : Contents) (o : Option OutboxRecord)
    → outbox_claim_matches o r ≡ true
    → NotHeld r c
    → Found outbox_value normalize_outbox_defaults (outbox_key r.id) o c
    → ⊥
held_and_not r c o e n f = cc (not_matching r c o n f)

module _ ⦃env : Env⦄ (r : OutboxRecord) (c0 : Contents) (lost : NotHeld r c0) where
  pub Triple-commit_not_held :
      (commit : M (Unit {0}))
      → Triple
          (λ c. c ≡ c0)
          (commit_if_outbox_claim_held r commit)
          (λ done c. (c ≡ c0) × (done ≡ false))
          (λ c. c ≡ c0)
  unfolding commit_if_outbox_claim_held
  Triple-commit_not_held commit = Triple-bind _ _ _ (Triple-get_outbox (λ c. c ≡ c0) r.id) λ o.
      Triple-if (outbox_claim_matches o r) _ _
        (λ e. Triple-never _ λ c h. held_and_not r c o e (subst (NotHeld r) (sym h.0) lost) h.1)
        λ e. Triple-pure false (λ c h. (h.0, refl))

  Keeps-commit_not_held :
      (commit : M (Unit {0})) → Keeps (λ c. c ≡ c0) (commit_if_outbox_claim_held r commit)
  Keeps-commit_not_held commit = Keeps-Triple _ (Triple-commit_not_held commit) (λ a c h. h.0)

  pub Keeps-discard_not_held :
      (commit : M (Unit {0}))
      → Keeps (λ c. c ≡ c0) (commit_if_outbox_claim_held r commit >>= λ _. pure tt)
  Keeps-discard_not_held commit = Keeps-bind _ _ (Keeps-commit_not_held commit) (λ _. Keeps-pure tt)

  pub cancel_claimed-not_held : Keeps (λ c. c ≡ c0) (cancel_claimed_outbox_operation r)
  unfolding cancel_claimed_outbox_operation
  cancel_claimed-not_held = Keeps-discard_not_held (delete_outbox r)

later_not_matching :
    (x r : OutboxRecord)
    → r.claim_attempt < x.claim_attempt
    → outbox_claim_matches (some x) r ≡ false
unfolding outbox_claim_matches
later_not_matching x r h = ground arith

-- Every claim of the operation up to this attempt is lost.
abbrev pub Fenced : OutboxRecord → Contents → Type 0
Fenced r c = (q : OutboxRecord) → q.id ≡ r.id → q.claim_attempt ≤ r.claim_attempt → NotHeld q c

Fenced-by_later :
    (r y : OutboxRecord) (c : Contents)
    → c (outbox_key r.id) ≡ some (outbox_value y)
    → y.claim_attempt ≡ suc r.claim_attempt
    → Fenced r c
Fenced-by_later r y c e a q p le x h =
    let same : y ≡ x = cc (e, h, p) in
    later_not_matching x q (omega (arith, a, ap (λ (z : OutboxRecord). z.claim_attempt) same, le))

-- If a claim was made.
abbrev pub FencedBy : OutboxRecord → Option OutboxRecord → Contents → Type 0
FencedBy r none c = Unit
FencedBy r (some s) c = Fenced r c

module _ ⦃env : Env⦄ where
  confirmed_attempt :
      (claim : OutboxRecord) (o : Option OutboxRecord) (s : OutboxRecord)
      → confirmed claim o ≡ some s
      → (o ≡ some s) × (s.claim_attempt ≡ claim.claim_attempt)
  confirmed_attempt claim none s e = cc
  confirmed_attempt claim (some x) s e = ground arith

  Fenced-of_Found :
      (r : OutboxRecord) (o : Option OutboxRecord) (s : OutboxRecord) (c : Contents)
      → o ≡ some s
      → s.claim_attempt ≡ suc r.claim_attempt
      → Found outbox_value normalize_outbox_defaults (outbox_key r.id) o c
      → Fenced r c
  Fenced-of_Found r none s c e a f = cc
  Fenced-of_Found r (some x) s c e a (y, p, q) =
      let same : x ≡ s = cc e in
      Fenced-by_later r y c q (
        ap (λ (z : OutboxRecord). z.claim_attempt) (sym p)
        ∙ (ap (λ (z : OutboxRecord). z.claim_attempt) same ∙ a))

  fenced_if_confirmed :
      (r claim : OutboxRecord) (o : Option OutboxRecord) (c : Contents)
      → claim.claim_attempt ≡ suc r.claim_attempt
      → Found outbox_value normalize_outbox_defaults (outbox_key r.id) o c
      → FencedBy r (confirmed claim o) c
  fenced_if_confirmed r claim o c later f = elim (Option-cases (confirmed claim o)) [
    | inl e ↦ rw e tt
    | inr (s, e) ↦
        let (p, a) = confirmed_attempt claim o s e in rw e (Fenced-of_Found r o s c p (a ∙ later) f)
  ]

  -- When a claim succeeds, every earlier claim of the operation is lost, whoever made it.
  pub claim-Fenced :
      (r : OutboxRecord) (owner : String) (now : ℕ)
      → Triple
          (λ _. Unit {0})
          (claim_outbox_record r owner now)
          (λ claimed c. FencedBy r claimed c)
          (λ _. Unit {0})
  unfolding claim_outbox_record
  claim-Fenced r owner now =
      Triple-if (is_outbox_claim_active r now) _ _ (λ _. Triple-pure none (λ c h. tt))
        λ _.
          Triple-then _ _ (Keeps-put_outbox (λ c k v e h. tt) (with_claim owner now r)) (λ c h. tt)
            λ _.
              Triple-bind _ _ _ (Triple-get_outbox (λ _. Unit {0}) r.id) λ o.
                Triple-pure _ λ c h. fenced_if_confirmed r (with_claim owner now r) o c refl h.1
