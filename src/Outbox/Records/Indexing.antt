-- ===== src/Outbox/Records/Indexing.antt =====
-- The writes and deletions of storage_outbox.go and the indexes.
use openbao_plugin_secrets_s.Prelude.{
  ◌≡◌, refl, subst, ap, ◌∙◌, false, List, [], ◌∷◌, Option, none, some, String, All, In, contains,
  contains_of_In,
}
use openbao_plugin_secrets_s.Records.{OutboxRecord}
use openbao_plugin_secrets_s.Storage.{
  Key, outbox_key, Value, outbox_value, id_value, Contents, update, Env, pure, option, put_entry,
  IsStored,
}
use openbao_plugin_secrets_s.Storage.Triples.{
  Triple, Triple-bind, Triple-pure, Triple-if, Triple-weaken, Triple-given, Triple-put,
  Triple-delete, update_same, update_other,
}
use openbao_plugin_secrets_s.Storage.Reading.{Found}
use openbao_plugin_secrets_s.Outbox.Records.{
  put_outbox, delete_outbox, put_outbox_indexes, put_index_keys, outbox_index_keys, key_eq,
  delete_keys_except, delete_stale_outbox_indexes, delete_outbox_indexes, normalize_outbox_defaults,
  get_outbox,
}
use openbao_plugin_secrets_s.Outbox.Records.Reads.{Triple-get_outbox}
use openbao_plugin_secrets_s.Outbox.Records.Indexed.{
  index_owner, Indexed, outbox_index_keys-owner, owner_of_member, not_record_key, IsStored-update,
  Indexed-put_index, Indexed-delete_index, Indexed-put_record, Indexed-delete_record,
}

-- What the old record of an operation says of its identity.
abbrev OwnedBy : String → Option OutboxRecord → Type 0
OwnedBy id none = Unit
OwnedBy id (some r) = r.id ≡ id

owned_by :
    (id : String) (o : Option OutboxRecord) (c : Contents)
    → Indexed c
    → Found outbox_value normalize_outbox_defaults (outbox_key id) o c
    → OwnedBy id o
owned_by id none c h f = tt
owned_by id (some r) c h (y, p, e) = cc ((h id y e).0, ap (λ (z : OutboxRecord). z.id) p)

module _ ⦃env : Env⦄ where
  -- The entries written so far stay.
  Triple-put_index_keys :
      (I : Contents → Type 0) (i : String)
      → ((c : Contents) (k : Key) (v : Value)
          → index_owner k ≡ some i
          → I c
          → I (update c k (some v)))
      → (ks : List Key) → All (λ k. index_owner k ≡ some i) ks
      → (id : String) → Triple I (put_index_keys ks id) (λ _ c. I c × All (IsStored c) ks) I
  unfolding put_index_keys
  Triple-put_index_keys I i g [] h id = Triple-pure tt (λ c j. (j, tt))
  Triple-put_index_keys I i g (k ∷ ks) h id =
      let J : Contents → Type 0 = λ c. I c × IsStored c k in
      Triple-bind (λ _. J) _ _
        (Triple-put k (id_value id) J I λ c j.
          let next = g c k (id_value id) h.0 j in
          ((next, (id_value id, update_same c k (some (id_value id)))), j, next))
        λ _.
          Triple-weaken _
            (Triple-put_index_keys J i
              (λ c k' v o j. (g c k' v o j.0, IsStored-update c k' k v j.1)) ks h.1 id)
            (λ c j. j) (λ _ c j. (j.0.0, (j.0.1, j.1))) (λ c j. j.0)

  -- Entries of the operation `i` go, but for those retained, while no stored record needs them.
  Triple-delete_keys_except :
      (I : Contents → Type 0) (i : String) (retained : List Key)
      → ((c : Contents) (k : Key)
          → index_owner k ≡ some i
          → contains retained k ≡ false
          → I c
          → I (update c k none))
      → (ks : List Key) → All (λ k. index_owner k ≡ some i) ks
      → Triple I (delete_keys_except retained ks) (λ _. I) I
  unfolding delete_keys_except
  Triple-delete_keys_except I i retained g [] h = Triple-pure tt (λ c j. j)
  Triple-delete_keys_except I i retained g (k ∷ ks) h =
      Triple-bind (λ _. I) _ _
        (Triple-if (contains retained k) _ _ (λ _. Triple-pure tt (λ c j. j))
          λ e. Triple-delete k I I (λ c j. let next = g c k h.0 e j in (next, j, next)))
        λ _. Triple-delete_keys_except I i retained g ks h.1

-- The stored record of an operation keeps its entries when others of the operation go.
abbrev Has : OutboxRecord → Contents → Type 0
Has r c = Indexed c × (c (outbox_key r.id) ≡ some (outbox_value r))

abbrev HasNot : String → Contents → Type 0
HasNot i c = Indexed c × (c (outbox_key i) ≡ none)

Has-delete_other :
    (r : OutboxRecord) (c : Contents) (k : Key)
    → index_owner k ≡ some r.id
    → contains (outbox_index_keys r) k ≡ false
    → Has r c
    → Has r (update c k none)
Has-delete_other r c k o out (h, e) = (
  Indexed-delete_index c k r.id o
      (λ id x s m.
        let member = owner_of_member x k m in
        let named = (h id x s).0 in
        let same : x ≡ r = cc (member, o, named, s, e) in
        cc (
          contains_of_In (outbox_index_keys r) k (subst (λ y. In k (outbox_index_keys y)) same m),
          out,
        ))
      h,
  update_other c k (outbox_key r.id) none (not_record_key k r.id r.id o) ∙ e,
)

HasNot-delete :
    (i : String) (c : Contents) (k : Key)
    → index_owner k ≡ some i
    → HasNot i c
    → HasNot i (update c k none)
HasNot-delete i c k o (h, e) = (
  Indexed-delete_index c k i o (λ id x s m. cc (owner_of_member x k m, o, (h id x s).0, s, e)) h,
  update_other c k (outbox_key i) none (not_record_key k i i o) ∙ e,
)

index_keys_of :
    (old : OutboxRecord) (i : String)
    → old.id ≡ i
    → All (λ k. index_owner k ≡ some i) (outbox_index_keys old)
index_keys_of old i p =
    subst (λ j. All (λ k. index_owner k ≡ some j) (outbox_index_keys old)) p
      (outbox_index_keys-owner old)

module _ ⦃env : Env⦄ where
  read_owned :
      (id : String) → Triple Indexed (get_outbox id) (λ o c. Indexed c × OwnedBy id o) Indexed
  read_owned id =
      Triple-weaken _ (Triple-get_outbox Indexed id) (λ c h. h)
        (λ o c h. (h.0, owned_by id o c h.0 h.1)) (λ c h. h)

  Triple-delete_stale :
      (r : OutboxRecord) (o : Option OutboxRecord)
      → OwnedBy r.id o
      → Triple
          (Has r)
          (option o (pure tt) λ old. delete_stale_outbox_indexes old r)
          (λ _. Has r)
          (Has r)
  unfolding delete_stale_outbox_indexes
  Triple-delete_stale r none p = Triple-pure tt (λ c h. h)
  Triple-delete_stale r (some old) p =
      Triple-delete_keys_except (Has r) r.id (outbox_index_keys r)
        (λ c k o e h. Has-delete_other r c k o e h) _ (index_keys_of old r.id p)

  Triple-put_canonical :
      (r : OutboxRecord)
      → Triple
          (λ c. Indexed c × All (IsStored c) (outbox_index_keys r))
          (put_entry (outbox_key r.id) (outbox_value r))
          (λ _. Has r)
          Indexed
  Triple-put_canonical r = Triple-put (outbox_key r.id) (outbox_value r) (Has r) Indexed λ c h.
      let next = Indexed-put_record c r h.1 h.0 in
      ((next, update_same c (outbox_key r.id) (some (outbox_value r))), h.0, next)

  -- A write of an operation that returns has stored it, and it leaves every stored operation in its
  -- indexes wherever the storage fails.
  pub put_outbox-Indexed :
      (r : OutboxRecord)
      → Triple Indexed
          (put_outbox r)
          (λ _ c. Indexed c × (c (outbox_key r.id) ≡ some (outbox_value r)))
          Indexed
  unfolding put_outbox put_outbox_indexes
  put_outbox-Indexed r = Triple-bind _ _ _ (read_owned r.id) λ o.
      Triple-given (OwnedBy r.id o) _ λ p.
        Triple-bind _ _ _
          (Triple-put_index_keys Indexed r.id (λ c k v q h. Indexed-put_index c k r.id v q h) _
            (outbox_index_keys-owner r) r.id)
          λ _.
            Triple-bind _ _ _ (Triple-put_canonical r)
              λ _. Triple-weaken _ (Triple-delete_stale r o p) (λ c h. h) (λ _ c h. h) (λ c h. h.0)

  Triple-delete_indexes :
      (r : OutboxRecord) (i : String)
      → r.id ≡ i
      → Triple (HasNot i) (delete_outbox_indexes r) (λ _. HasNot i) (HasNot i)
  unfolding delete_outbox_indexes
  Triple-delete_indexes r i p =
      Triple-delete_keys_except (HasNot i) i [] (λ c k o e h. HasNot-delete i c k o h) _
        (index_keys_of r i p)

  Triple-delete_old :
      (i : String) (o : Option OutboxRecord)
      → OwnedBy i o
      → Triple (HasNot i) (option o (pure tt) delete_outbox_indexes) (λ _. HasNot i) (HasNot i)
  Triple-delete_old i none p = Triple-pure tt (λ c h. h)
  Triple-delete_old i (some old) p = Triple-delete_indexes old i p

  -- A deletion of an operation that returns has removed it, and it leaves every stored operation in
  -- its indexes wherever the storage fails.
  pub delete_outbox-Indexed :
      (r : OutboxRecord)
      → Triple Indexed (delete_outbox r) (λ _ c. Indexed c × (c (outbox_key r.id) ≡ none)) Indexed
  unfolding delete_outbox
  delete_outbox-Indexed r = Triple-bind _ _ _ (read_owned r.id) λ o.
      Triple-given (OwnedBy r.id o) _ λ p.
        Triple-bind (λ _. HasNot r.id) _ _
          (Triple-delete (outbox_key r.id) (HasNot r.id) Indexed λ c h.
            let next = Indexed-delete_record c r.id h in
            ((next, update_same c (outbox_key r.id) none), h, next))
          λ _.
            Triple-weaken _
              (Triple-bind _ _ _ (Triple-delete_indexes r r.id refl)
                λ _. Triple-delete_old r.id o p)
              (λ c h. h) (λ _ c h. h) (λ c h. h.0)
