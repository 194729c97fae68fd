-- ===== src/Outbox/Records/Recorded.antt =====
-- The writes of storage_outbox.go and which operations are stored.
use openbao_plugin_secrets_s.Prelude.{◌≡◌, refl, sym, ap, ◌∙◌, Option, some, String}
use openbao_plugin_secrets_s.Records.{OutboxRecord}
use openbao_plugin_secrets_s.Storage.{
  Key, Key-discrete, outbox_key, outbox_value, Value, Contents, update, Env,
}
use openbao_plugin_secrets_s.Storage.Triples.{
  Triple, Triple-bind, Triple-put, Triple-Keeps, Triple-then, Ignores, Ignores-at, update_same,
  update_other,
}
use openbao_plugin_secrets_s.Outbox.Records.{put_outbox}
use openbao_plugin_secrets_s.Outbox.Records.Frame.{
  is_index_key, Keeps-get_outbox, Keeps-put_outbox_indexes, Keeps-delete_existing,
}

abbrev IsOutboxValue : Option Value → Type 0
IsOutboxValue v = (r : OutboxRecord) × (v ≡ some (outbox_value r))

-- An operation of this identity is in the outbox.
abbrev pub Recorded : String → Contents → Type 0
Recorded id c = IsOutboxValue (c (outbox_key id))

pub Ignores-Recorded : (id : String) → Ignores is_index_key (Recorded id)
Ignores-Recorded id = Ignores-at is_index_key (outbox_key id) IsOutboxValue refl

pub Recorded-put :
    (c : Contents) (id : String) (k : Key) (r : OutboxRecord)
    → Recorded id c
    → Recorded id (update c k (some (outbox_value r)))
Recorded-put c id k r (x, e) = elim (Key-discrete k (outbox_key id)) [
  | yes p ↦
      (r, ap (update c k (some (outbox_value r))) (sym p) ∙ update_same c k (some (outbox_value r)))
  | no n ↦ (x, update_other c k (outbox_key id) (some (outbox_value r)) n ∙ e)
]

-- An invariant that index entries do not matter to, and that the writes of records keep.
pub record Stable (I : Contents → Type 0) : Type 0 where
  pub index : Ignores is_index_key I
  pub put :
      (c : Contents) (r : OutboxRecord)
      → I c
      → I (update c (outbox_key r.id) (some (outbox_value r)))

pub Stable-Recorded :
    (I : Contents → Type 0) (id : String) → Stable I → Stable (λ c. I c × Recorded id c)
Stable-Recorded I id g = record {
  index = λ c k v h j. (g.index c k v h j.0, Ignores-Recorded id c k v h j.1);
  put = λ c r j. (g.put c r j.0, Recorded-put c id (outbox_key r.id) r j.1);
}

module _ ⦃env : Env⦄ (I : Contents → Type 0) (g : Stable I) where
  pub put_outbox-Recorded :
      (r : OutboxRecord) → Triple I (put_outbox r) (λ _ c. I c × Recorded r.id c) I
  unfolding put_outbox
  put_outbox-Recorded r =
      Triple-then _ _ (Keeps-get_outbox r.id) (λ c h. h)
        λ existing.
          Triple-then _ _ (Keeps-put_outbox_indexes g.index r) (λ c h. h)
            λ _.
              Triple-bind (λ _ c. I c × Recorded r.id c) _ _
                (Triple-put (outbox_key r.id) (outbox_value r) (λ c. I c × Recorded r.id c) I
                  λ c h.
                    let next = g.put c r h in
                    ((next, (r, update_same c (outbox_key r.id) (some (outbox_value r)))), h, next))
                λ _.
                  Triple-Keeps _ (Keeps-delete_existing (Stable-Recorded I r.id g).index r existing)
                    (λ _ c h. h) (λ c h. h.0)
