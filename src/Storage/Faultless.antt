-- ===== src/Storage/Faultless.antt =====
-- Actions on a storage that does not fail: each call returns, so that only the code's own errors are
-- left.
use openbao_plugin_secrets_s.Prelude.{◌≡◌, sym, subst, ap, ◌∙◌, Option, some, none}
use openbao_plugin_secrets_s.Storage.{
  Key, Value, Contents, update, Prefix, Result, ok, err, Reads, Writes, Env, get_entry, put_entry,
  delete_entry, now_utc,
}
use openbao_plugin_secrets_s.Storage.Triples.{Triple, Ends}

abbrev pub IsOk : {S A : Type 0} → Result S A → Type 0
IsOk (ok a t) = Unit
IsOk (err e t) = ⊥

pub record Faultless (env : Env) : Type 0 where
  pub get_sure : (k : Key) (s : env.State) → IsOk (env.get k s)
  pub put_sure : (k : Key) (v : Value) (s : env.State) → IsOk (env.put k v s)
  pub remove_sure : (k : Key) (s : env.State) → IsOk (env.remove k s)
  pub list_sure : (p : Prefix) (s : env.State) → IsOk (env.list p s)
  pub now_sure : (s : env.State) → IsOk (env.now_utc s)

module _ ⦃env : Env⦄ where
  read-Ends :
      {A : Type 0} (P E : Contents → Type 0) (B : A → Type 0) (c : Contents)
      (r : Result env.State A)
      → IsOk r
      → Reads env.contents c B r
      → P c
      → Ends (λ _. P) E r
  read-Ends P E B c (ok a t) sure h p = subst P (sym h.1) p
  read-Ends P E B c (err e t) sure h p = absurd sure

  write-Ends :
      (c d : Contents) (R E : Contents → Type 0) (r : Result env.State (Unit {0}))
      → IsOk r
      → Writes env.contents c d r
      → R d
      → Ends (λ _. R) E r
  write-Ends c d R E (ok _ t) sure h r = subst R (sym h) r
  write-Ends c d R E (err e t) sure h r = absurd sure

module _ ⦃env : Env⦄ (f : Faultless env) {P E : Contents → Type 0} where
  pub Triple-get_sure : (k : Key) → Triple P (get_entry k) (λ v c. P c × (v ≡ c k)) E
  Triple-get_sure k = record { run = λ s p. got (env.get k s) (f.get_sure k s) (env.get_lem k s) p }
    where
      got :
          {s : env.State} (r : Result env.State (Option Value))
          → IsOk r
          → Reads env.contents (env.contents s) (λ v. v ≡ env.contents s k) r
          → P (env.contents s)
          → Ends (λ v c. P c × (v ≡ c k)) E r
      got (ok v t) sure h p = (subst P (sym h.1) p, h.0 ∙ sym (ap (λ (d : Contents). d k) h.1))
      got (err e t) sure h p = absurd sure

  pub Triple-put_sure :
      (k : Key) (v : Value) (R : Contents → Type 0)
      → ((c : Contents) → P c → R (update c k (some v)))
      → Triple P (put_entry k v) (λ _. R) E
  Triple-put_sure k v R g = record {
    run = λ s p. write-Ends _ _ R E (env.put k v s) (f.put_sure k v s) (env.put_lem k v s) (g _ p);
  }

  pub Triple-delete_sure :
      (k : Key) (R : Contents → Type 0)
      → ((c : Contents) → P c → R (update c k none))
      → Triple P (delete_entry k) (λ _. R) E
  Triple-delete_sure k R g = record {
    run =
        λ s p. write-Ends _ _ R E (env.remove k s) (f.remove_sure k s) (env.remove_lem k s) (g _ p);
  }

  pub Triple-list_sure : (p : Prefix) → Triple P (env.list p) (λ _. P) E
  Triple-list_sure p = record {
    run = λ s h. read-Ends P E _ _ (env.list p s) (f.list_sure p s) (env.list_lem p s) h;
  }

  pub Triple-now_sure : Triple P now_utc (λ _. P) E
  Triple-now_sure = record {
    run = λ s h. read-Ends P E _ _ (env.now_utc s) (f.now_sure s) (env.now_utc_lem s) h;
  }
