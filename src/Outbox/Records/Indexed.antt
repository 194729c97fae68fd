-- ===== src/Outbox/Records/Indexed.antt =====
-- The index entries of storage_outbox.go as an invariant of the stored contents.
use openbao_plugin_secrets_s.Prelude.{
  ℕ, ◌≡◌, sym, subst, ap, ◌∙◌, inl, inr, List, [], ◌∷◌, Option, none, some, String, All, All-map,
  All-In, In, arith, ◌≢◌, refl, Bool-cases, string_eq, ◌==◌,
}
use openbao_plugin_secrets_s.Records.{OutboxRecord}
use openbao_plugin_secrets_s.Storage.{
  Key, Key-discrete, outbox_key, outbox_by_path_key, outbox_by_state_key, outbox_by_due_key, Value,
  outbox_value, Contents, update, IsStored,
}
use openbao_plugin_secrets_s.Storage.Triples.{update_same, update_other}
use openbao_plugin_secrets_s.Outbox.Records.{outbox_index_keys, outbox_due_index_time}

-- The operation that an index entry is for.
abbrev pub index_owner : Key → Option String
index_owner (outbox_by_path_key _ id) = some id
index_owner (outbox_by_state_key _ id) = some id
index_owner (outbox_by_due_key _ id) = some id
index_owner _ = none

-- Every stored operation stands under its own identity and is in its indexes.
abbrev pub Indexed : Contents → Type 0
Indexed c =
    (id : String) (r : OutboxRecord)
    → c (outbox_key id) ≡ some (outbox_value r)
    → (r.id ≡ id) × All (IsStored c) (outbox_index_keys r)

pub outbox_index_keys-owner :
    (r : OutboxRecord) → All (λ k. index_owner k ≡ some r.id) (outbox_index_keys r)
unfolding outbox_index_keys outbox_due_index_time
outbox_index_keys-owner r = ground arith

pub owner_of_member :
    (r : OutboxRecord) (k : Key) → In k (outbox_index_keys r) → index_owner k ≡ some r.id
owner_of_member r k m = All-In _ _ k (outbox_index_keys-owner r) m

pub not_record_key : (k : Key) (i id : String) → index_owner k ≡ some i → ¬ (k ≡ outbox_key id)
not_record_key k i id e p = cc (ap index_owner p, e)

record_key_not_index : (x : OutboxRecord) (i : String) → ¬ In (outbox_key i) (outbox_index_keys x)
record_key_not_index x i m = cc (owner_of_member x (outbox_key i) m)

pub IsStored-update :
    (c : Contents) (k j : Key) (v : Value) → IsStored c j → IsStored (update c k (some v)) j
IsStored-update c k j v (w, e) = elim (Key-discrete k j) [
  | yes p ↦ (v, ap (update c k (some v)) (sym p) ∙ update_same c k (some v))
  | no n ↦ (w, update_other c k j (some v) n ∙ e)
]

pub Indexed-put_index :
    (c : Contents) (k : Key) (i : String) (v : Value)
    → index_owner k ≡ some i
    → Indexed c
    → Indexed (update c k (some v))
Indexed-put_index c k i v o h id r e =
    let old =
      h id r (sym (update_other c k (outbox_key id) (some v) (not_record_key k i id o)) ∙ e) in
    (old.0, All-map _ _ _ (λ j. IsStored-update c k j v) old.1)

-- No stored operation is indexed at the key.
abbrev pub Free : Key → Contents → Type 0
Free k c =
    (id : String) (r : OutboxRecord)
    → c (outbox_key id) ≡ some (outbox_value r)
    → ¬ In k (outbox_index_keys r)

kept-IsStored :
    (c : Contents) (k : Key) (ks : List Key)
    → ¬ In k ks
    → All (IsStored c) ks
    → All (IsStored (update c k none)) ks
kept-IsStored c k [] n h = tt
kept-IsStored c k (j ∷ ks) n h = (
  (h.0.0, update_other c k j none (λ e. n (inl (sym e))) ∙ h.0.1),
  kept-IsStored c k ks (λ m. n (inr m)) h.1,
)

pub Indexed-delete_index :
    (c : Contents) (k : Key) (i : String)
    → index_owner k ≡ some i
    → Free k c
    → Indexed c
    → Indexed (update c k none)
Indexed-delete_index c k i o free h id r e =
    let was = sym (update_other c k (outbox_key id) none (not_record_key k i id o)) ∙ e in
    ((h id r was).0, kept-IsStored c k _ (free id r was) (h id r was).1)

pub Indexed-put_record :
    (c : Contents) (r : OutboxRecord)
    → All (IsStored c) (outbox_index_keys r)
    → Indexed c
    → Indexed (update c (outbox_key r.id) (some (outbox_value r)))
Indexed-put_record c r stored h id x e = elim (Key-discrete (outbox_key r.id) (outbox_key id)) [
  | yes p ↦
      let at_key = ap (update c (outbox_key r.id) (some (outbox_value r))) p in
      let same : r ≡ x = cc (e, at_key, update_same c (outbox_key r.id) (some (outbox_value r))) in
      let all =
        All-map _ _ _ (λ j. IsStored-update c (outbox_key r.id) j (outbox_value r)) stored in
      (
        cc (same, p),
        subst
            (λ y.
              All (IsStored (update c (outbox_key r.id) (some (outbox_value r))))
                (outbox_index_keys y))
            same all,
      )
  | no n ↦
      let old =
        h id x
          (sym (update_other c (outbox_key r.id) (outbox_key id) (some (outbox_value r)) n) ∙ e) in
      (old.0, All-map _ _ _ (λ j. IsStored-update c (outbox_key r.id) j (outbox_value r)) old.1)
]

pub Indexed-delete_record :
    (c : Contents) (i : String) → Indexed c → Indexed (update c (outbox_key i) none)
Indexed-delete_record c i h id x e = elim (Key-discrete (outbox_key i) (outbox_key id)) [
  | yes p ↦ cc (e, ap (update c (outbox_key i) none) p, update_same c (outbox_key i) none)
  | no n ↦
      let old = h id x (sym (update_other c (outbox_key i) (outbox_key id) none n) ∙ e) in
      (old.0, kept-IsStored c (outbox_key i) _ (record_key_not_index x i) old.1)
]

pub path_key-In :
    (r : OutboxRecord) → r.path ≢ "" → In (outbox_by_path_key r.path r.id) (outbox_index_keys r)
unfolding outbox_index_keys
path_key-In r named = elim (Bool-cases (r.path == "")) [
  | inl e ↦ absurd (named ((string_eq.same_iff r.path "").0 e))
  | inr e ↦ rw e (inl refl)
]

pub due_key-In :
    (r : OutboxRecord) (d : ℕ)
    → outbox_due_index_time r ≡ some d
    → In (outbox_by_due_key d r.id) (outbox_index_keys r)
unfolding outbox_index_keys
due_key-In r d e = rw e (ground arith)
