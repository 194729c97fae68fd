-- ===== src/Storage/Reading.antt =====
-- The reads of records: an entry is fetched, decoded and given its defaults.
use openbao_plugin_secrets_s.Prelude.{◌≡◌, refl, sym, ap, ◌∙◌, Option, none, some}
use openbao_plugin_secrets_s.Storage.{Key, Value, Contents, Env, M, ◌>>=◌, pure, option, get_entry}
use openbao_plugin_secrets_s.Storage.Triples.{
  Triple, Triple-bind, Triple-get, Triple-pure, Triple-option, Triple-weaken,
}

-- `x` is what stands at the key, read as a record of one kind.
abbrev pub Found : {R X : Type 0} → (R → Value) → (R → X) → Key → Option X → Contents → Type 0
Found stored norm k none c = c k ≡ none
Found {R} stored norm k (some x) c = (r : R) × (x ≡ norm r) × (c k ≡ some (stored r))

module _ ⦃env : Env⦄ {R : Type 0} where
  -- A decoder gives back the record that was stored.
  abbrev pub Decodes : (R → Value) → (Value → M R) → Type 1
  Decodes stored decode =
      (I : Contents → Type 0) (v : Value) → Triple I (decode v) (λ r c. I c × (v ≡ stored r)) I

  pub Triple-read :
      {X : Type 0} (I : Contents → Type 0) (k : Key) (stored : R → Value) (norm : R → X)
      (decode : Value → M R)
      → Decodes stored decode
      → Triple I
          (get_entry k >>= λ entry.
            option entry (pure none) λ v. decode v >>= λ r. pure (some (norm r)))
          (λ o c. I c × Found stored norm k o c)
          I
  Triple-read I k stored norm decode d = Triple-bind _ _ _ (Triple-get {P = I} k) λ entry.
      Triple-option entry _ _ (λ e. Triple-pure none (λ c h. (h.0, sym h.1 ∙ e)))
        λ v e.
          Triple-bind (λ r c. (I c × (entry ≡ c k)) × (v ≡ stored r)) _ _
            (Triple-weaken (decode v) (d (λ c. I c × (entry ≡ c k)) v) (λ c h. h) (λ r c h. h)
              (λ c h. h.0))
            λ r.
              Triple-pure (some (norm r)) λ c h. (h.0.0, (r, refl, sym h.0.1 ∙ (e ∙ ap some h.1)))
