-- ===== src/Status/Versions.antt =====
-- Writes of a status and its version (storage_status.go).
use openbao_plugin_secrets_s.Prelude.{
  ℕ, ◌≤◌, ◌≡◌, refl, sym, subst, ap, ◌∙◌, Option, none, some, String, arith, ltb, if◌then◌else◌,
}
use openbao_plugin_secrets_s.Records.{StatusRecord}
use openbao_plugin_secrets_s.Storage.{
  Key, Key-discrete, status_key, Value, status_value, decode_failed, Contents, update, Env, pure,
  option,
}
use openbao_plugin_secrets_s.Storage.Keeps.{Keeps}
use openbao_plugin_secrets_s.Storage.Triples.{
  Triple, Triple-bind, Triple-throw, Triple-pure, Triple-if, Triple-put, Triple-weaken,
  Keeps-Triple, update_same, update_other,
}
use openbao_plugin_secrets_s.Storage.Reading.{Found, Decodes, Triple-read}
use openbao_plugin_secrets_s.Status.{
  put_status, get_status, write_status, decode_status, preserve_status_drift_bookkeeping,
  status_key_of,
}

-- The status of the object is there, and of the version `n` or a later one.
abbrev pub AtLeast : ℕ → Option Value → Type 0
AtLeast n (some (status_value r)) = n ≤ r.version
AtLeast n _ = ⊥

abbrev pub HasVersion : Key → ℕ → Contents → Type 0
HasVersion k n c = AtLeast n (c k)

write_keeps_version :
    (c : Contents) (k j : Key) (n : ℕ) (r : StatusRecord)
    → (k ≡ j → n ≤ r.version)
    → HasVersion j n c
    → HasVersion j n (update c k (some (status_value r)))
write_keeps_version c k j n r f h = elim (Key-discrete k j) [
  | yes e ↦
      subst (AtLeast n)
        (sym (
          ap (update c k (some (status_value r))) (sym e)
          ∙ update_same c k (some (status_value r))))
        (f e)
  | no e ↦ subst (AtLeast n) (sym (update_other c k j (some (status_value r)) e)) h
]

module _ ⦃env : Env⦄ where
  decode_status-lem : Decodes status_value decode_status
  decode_status-lem I (status_value r) = Triple-pure r (λ c h. (h, refl))
  decode_status-lem I _ = Triple-throw decode_failed (λ c h. h)

  pub Triple-get_status :
      (I : Contents → Type 0) (p a o : String)
      → Triple I
          (get_status p a o)
          (λ r c. I c × Found status_value (λ r. r) (status_key p a o) r c)
          I
  unfolding get_status
  Triple-get_status I p a o =
      Triple-read I (status_key p a o) status_value (λ r. r) decode_status decode_status-lem

module _ ⦃env : Env⦄ (j : Key) (n : ℕ) where
  Triple-write_status :
      (P : Contents → Type 0) (r : StatusRecord)
      → ((c : Contents) → P c → HasVersion j n c × (status_key_of r ≡ j → n ≤ r.version))
      → Triple P (write_status r) (λ _. HasVersion j n) (HasVersion j n)
  unfolding write_status
  Triple-write_status P r f =
      Triple-put (status_key_of r) (status_value r) (HasVersion j n) (HasVersion j n) λ c h.
        let kept = write_keeps_version c (status_key_of r) j n r (f c h).1 (f c h).0 in
        (kept, (f c h).0, kept)

  -- The version of a stored status that is read at `k`.
  stored-AtLeast :
      (c : Contents) (k : Key) (o : Option Value) → c k ≡ o → HasVersion j n c → k ≡ j → AtLeast n o
  stored-AtLeast c k o e h p = subst (AtLeast n) (ap c (sym p) ∙ e) h

  over_old :
      (r old : StatusRecord)
      → Triple
          (λ c. HasVersion j n c × (c (status_key_of r) ≡ some (status_value old)))
          (if ltb r.version old.version
            then pure tt
            else write_status (preserve_status_drift_bookkeeping r old))
          (λ _. HasVersion j n)
          (HasVersion j n)
  unfolding preserve_status_drift_bookkeeping
  over_old r old =
      Triple-if (ltb r.version old.version) _ _ (λ _. Triple-pure tt (λ c h. h.0))
        λ e.
          Triple-write_status _ (preserve_status_drift_bookkeeping r old)
            λ c h. (h.0, λ p. ground (arith, stored-AtLeast c (status_key_of r) _ h.1 h.0 p))

  after_read :
      (r : StatusRecord) (o : Option StatusRecord)
      → Triple
          (λ c. HasVersion j n c × Found status_value (λ x. x) (status_key_of r) o c)
          (option o (write_status r) λ old.
            if ltb r.version old.version
            then pure tt
            else write_status (preserve_status_drift_bookkeeping r old))
          (λ _. HasVersion j n)
          (HasVersion j n)
  after_read r none =
      Triple-write_status _ r
        λ c h. (h.0, λ p. absurd (stored-AtLeast c (status_key_of r) none h.1 h.0 p))
  after_read r (some old) =
      Triple-weaken _ (over_old r old)
        (λ c h. (h.0, h.1.2 ∙ ap (λ x. some (status_value x)) (sym h.1.1))) (λ _ c h. h) (λ c h. h)

  -- Once an object has the status of a version, every later write of any status, and every failure of
  -- the storage during it, leaves it the status of that version or of a later one.
  pub put_status-HasVersion : (r : StatusRecord) → Keeps (HasVersion j n) (put_status r)
  unfolding put_status
  put_status-HasVersion r =
      Keeps-Triple (put_status r)
        (Triple-bind _ _ _ (Triple-get_status (HasVersion j n) r.path r.association_id r.object_id)
          λ o. after_read r o)
        λ _ c h. h
