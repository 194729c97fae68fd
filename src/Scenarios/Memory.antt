-- ===== src/Scenarios/Memory.antt =====
-- A storage for the examples: a list of entries, of which the first of a key counts.
use openbao_plugin_secrets_s.Prelude.{
  ℕ, ◌≡◌, refl, ap, ◌∙◌, ◌↔◌, ◌⊎◌, inl, inr, List, [], ◌∷◌, Option, none, some, String, In,
  if◌then◌else◌, to_bool, fun_ext, arith, ◌==◌, string_eq, eq_self, to_bool_iff,
}
use openbao_plugin_secrets_s.Records.{OutboxState-discrete}
use openbao_plugin_secrets_s.Storage.{
  Key, Key-discrete, outbox_by_path_key, outbox_by_state_key, outbox_by_due_key, association_key,
  association_name_key, version_key, status_key, enqueue_intent_key, Value, Contents, update,
  Prefix, by_path, by_state, associations_of, reservations_of, destination_associations_of,
  sensitive_versions_of, association_by_destination_key, destination_sensitive_version_key,
  member_key, IsStored, ok, Env,
}

abbrev pub Entries : Type 0
Entries = List (Key × Value)

unfoldable pub lookup : Entries → Contents
lookup [] k = none
lookup ((j, v) ∷ es) k = if to_bool (Key-discrete j k) then some v else lookup es k

unfoldable pub drop_key : Key → Entries → Entries
drop_key k [] = []
drop_key k ((j, v) ∷ es) =
    if to_bool (Key-discrete j k) then drop_key k es else (j, v) ∷ drop_key k es

abbrev pub prepend : {B : Type 0} → Option B → List B → List B
prepend none bs = bs
prepend (some b) bs = b ∷ bs

abbrev pub collect : {B : Type 0} → (Key → Option B) → Entries → List B
collect f [] = []
collect f ((k, v) ∷ es) = prepend (f k) (collect f es)

In-prepend :
    {B : Type 0} (o : Option B) (bs : List B) (b : B)
    → In b (prepend o bs) ↔ ((o ≡ some b) ⊎ In b bs)
In-prepend none bs b = (λ m. inr m, λ h. elim h [ inl e ↦ cc e | inr m ↦ m ])
In-prepend (some a) bs b = (
  λ m. elim m [ inl e ↦ inl (ap some e) | inr n ↦ inr n ],
  λ h. elim h [ inl e ↦ inl (cc e) | inr n ↦ inr n ],
)

lookup_cons :
    (es : Entries) (k j : Key) (v : Value)
    → IsStored (lookup ((k, v) ∷ es)) j ↔ ((k ≡ j) ⊎ IsStored (lookup es) j)
unfolding lookup
lookup_cons es k j v =
    elim (Key-discrete k j)
      as (λ d.
        ((w : Value) × ((if to_bool d then some v else lookup es j) ≡ some w))
        ↔ ((k ≡ j) ⊎ IsStored (lookup es) j)) [
          | yes p ↦ (λ s. inl p, λ h. (v, refl))
          | no n ↦ (λ s. inr s, λ h. elim h [ inl p ↦ absurd (n p) | inr s ↦ s ])
        ]

module _ {B : Type 0} (f : Key → Option B) (g : B → Key)
    (inverse : (k : Key) (b : B) → (f k ≡ some b) ↔ (k ≡ g b)) where
  pub collect_iff : (es : Entries) (b : B) → In b (collect f es) ↔ IsStored (lookup es) (g b)
  unfolding lookup
  collect_iff [] b = (λ m. absurd m, λ s. cc s.1)
  collect_iff ((k, v) ∷ es) b = (
    λ m. elim ((In-prepend (f k) (collect f es) b).0 m) [
      | inl e ↦ (lookup_cons es k (g b) v).1 (inl ((inverse k b).0 e))
      | inr n ↦ (lookup_cons es k (g b) v).1 (inr ((collect_iff es b).0 n))
    ],
    λ s. elim ((lookup_cons es k (g b) v).0 s) [
      | inl p ↦ (In-prepend (f k) (collect f es) b).1 (inl ((inverse k b).1 p))
      | inr t ↦ (In-prepend (f k) (collect f es) b).1 (inr ((collect_iff es b).1 t))
    ],
  )

pub lookup_put :
    (k : Key) (v : Value) (es : Entries) (j : Key)
    → lookup ((k, v) ∷ es) j ≡ update (lookup es) k (some v) j
unfolding lookup update
lookup_put k v es j = refl

pub lookup_drop :
    (k : Key) (es : Entries) (j : Key) → lookup (drop_key k es) j ≡ update (lookup es) k none j
unfolding lookup drop_key update
lookup_drop k [] j = grind arith
lookup_drop k ((i, v) ∷ es) j = grind (
  arith,
  to_bool_iff (Key-discrete i k),
  to_bool_iff (Key-discrete i j),
  to_bool_iff (Key-discrete k j),
  lookup_drop k es j,
)

abbrev pub member_of : Prefix → Key → Option String
member_of (by_path p) (outbox_by_path_key q id) = if q == p then some id else none
member_of (by_state s) (outbox_by_state_key t id) =
    if to_bool (OutboxState-discrete t s) then some id else none
member_of (associations_of p) (association_key q id) = if q == p then some id else none
member_of (reservations_of r n) (association_name_key q m id) =
    if q == r then (if m == n then some id else none) else none
member_of (destination_associations_of t n) (association_by_destination_key q m id) =
    if q == t then (if m == n then some id else none) else none
member_of (sensitive_versions_of t n) (destination_sensitive_version_key q m id) =
    if q == t then (if m == n then some id else none) else none
member_of _ _ = none

member_of_member : (p : Prefix) (id : String) → member_of p (member_key p id) ≡ some id
member_of_member (by_path p) id = rw (eq_self p)
member_of_member (by_state s) id = rw ((to_bool_iff (OutboxState-discrete s s)).1 refl)
member_of_member (associations_of p) id = rw (eq_self p)
member_of_member (reservations_of r n) id = rw (eq_self r) (rw (eq_self n))
member_of_member (destination_associations_of t n) id = rw (eq_self t) (rw (eq_self n))
member_of_member (sensitive_versions_of t n) id = rw (eq_self t) (rw (eq_self n))

member_of_key : (p : Prefix) (k : Key) (id : String) → member_of p k ≡ some id → k ≡ member_key p id
member_of_key (by_path p) (outbox_by_path_key q i) id e = grind (arith, string_eq.same_iff q p)
member_of_key (by_path p) _ id e = cc e
member_of_key (by_state s) (outbox_by_state_key t i) id e =
    grind (arith, to_bool_iff (OutboxState-discrete t s))
member_of_key (by_state s) _ id e = cc e
member_of_key (associations_of p) (association_key q i) id e = grind (arith, string_eq.same_iff q p)
member_of_key (associations_of p) _ id e = cc e
member_of_key (reservations_of r n) (association_name_key q m i) id e =
    grind (arith, string_eq.same_iff q r, string_eq.same_iff m n)
member_of_key (reservations_of r n) _ id e = cc e
member_of_key (destination_associations_of r n) (association_by_destination_key q m i) id e =
    grind (arith, string_eq.same_iff q r, string_eq.same_iff m n)
member_of_key (destination_associations_of r n) _ id e = cc e
member_of_key (sensitive_versions_of r n) (destination_sensitive_version_key q m i) id e =
    grind (arith, string_eq.same_iff q r, string_eq.same_iff m n)
member_of_key (sensitive_versions_of r n) _ id e = cc e

pub member_of_inverse :
    (p : Prefix) (k : Key) (id : String) → (member_of p k ≡ some id) ↔ (k ≡ member_key p id)
member_of_inverse p k id = (member_of_key p k id, λ e. ap (member_of p) e ∙ member_of_member p id)

abbrev pub version_of : String → Key → Option ℕ
version_of p (version_key q n) = if q == p then some n else none
version_of p _ = none

pub version_of_inverse :
    (p : String) (k : Key) (n : ℕ) → (version_of p k ≡ some n) ↔ (k ≡ version_key p n)
version_of_inverse p k n = (version_of_key p k n, λ e. ap (version_of p) e ∙ rw (eq_self p))
  where
    version_of_key : (p : String) (k : Key) (n : ℕ) → version_of p k ≡ some n → k ≡ version_key p n
    version_of_key p (version_key q m) n e = grind (arith, string_eq.same_iff q p)
    version_of_key p _ n e = cc e

abbrev pub status_of : String → Key → Option (String × String)
status_of p (status_key q a o) = if q == p then some (a, o) else none
status_of p _ = none

pub status_of_key :
    (p : String) (k : Key) (b : String × String) → status_of p k ≡ some b → k ≡ status_key p b.0 b.1
status_of_key p (status_key q a o) (x, y) e = grind (arith, string_eq.same_iff q p)
status_of_key p _ b e = cc e

abbrev pub due_of : Key → Option (ℕ × String)
due_of (outbox_by_due_key d id) = some (d, id)
due_of _ = none

pub due_of_key : (k : Key) (b : ℕ × String) → due_of k ≡ some b → k ≡ outbox_by_due_key b.0 b.1
due_of_key (outbox_by_due_key d id) (x, y) e = cc e
due_of_key _ b e = cc e

abbrev pub intent_of : Key → Option (String × ℕ)
intent_of (enqueue_intent_key p n) = some (p, n)
intent_of _ = none

pub intent_of_key :
    (k : Key) (b : String × ℕ) → intent_of k ≡ some b → k ≡ enqueue_intent_key b.0 b.1
intent_of_key (enqueue_intent_key p n) (x, y) e = cc e
intent_of_key _ b e = cc e

abbrev pub association_of : Key → Option (String × String)
association_of (association_key p id) = some (p, id)
association_of _ = none

pub association_of_key :
    (k : Key) (b : String × String) → association_of k ≡ some b → k ≡ association_key b.0 b.1
association_of_key (association_key p id) (x, y) e = cc e
association_of_key _ b e = cc e

-- The storage at a moment of the clock, and with a random source that repeats itself.
abbrev pub memory : ℕ → String → Env
memory clock random = record {
  State = Entries;
  contents = lookup;
  get = λ k s. ok (lookup s k) s;
  put = λ k v s. ok tt ((k, v) ∷ s);
  remove = λ k s. ok tt (drop_key k s);
  list = λ p s. ok (collect (member_of p) s) s;
  list_versions = λ p s. ok (collect (version_of p) s) s;
  list_status_keys = λ p s. ok (collect (status_of p) s) s;
  collect_due = λ s. ok (collect due_of s) s;
  collect_intents = λ s. ok (collect intent_of s) s;
  collect_associations = λ s. ok (collect association_of s) s;
  now_utc = λ s. ok clock s;
  random_id = λ s. ok random s;
  get_lem = λ k s. (refl, refl);
  put_lem = λ k v s. fun_ext (λ j. lookup_put k v s j);
  remove_lem = λ k s. fun_ext (λ j. lookup_drop k s j);
  list_lem =
      λ p s. (λ id. (collect_iff (member_of p) (member_key p) (member_of_inverse p) s id).1, refl);
  list_versions_lem =
      λ p s. (λ n. collect_iff (version_of p) (version_key p) (version_of_inverse p) s n, refl);
  list_status_keys_lem = λ p s. (
    λ a o.
        collect_iff (status_of p) (λ b. status_key p b.0 b.1)
          (λ k b. (status_of_key p k b, λ e. ap (status_of p) e ∙ rw (eq_self p))) s (a, o),
    refl,
  );
  collect_due_lem = λ s. (
    λ d id.
        collect_iff due_of (λ b. outbox_by_due_key b.0 b.1)
          (λ k b. (due_of_key k b, λ e. ap due_of e)) s (d, id),
    refl,
  );
  collect_intents_lem = λ s. (
    λ p n.
        collect_iff intent_of (λ b. enqueue_intent_key b.0 b.1)
          (λ k b. (intent_of_key k b, λ e. ap intent_of e)) s (p, n),
    refl,
  );
  collect_associations_lem = λ s. (
    λ p id.
        collect_iff association_of (λ b. association_key b.0 b.1)
          (λ k b. (association_of_key k b, λ e. ap association_of e)) s (p, id),
    refl,
  );
  now_utc_lem = λ s. (tt, refl);
  random_id_lem = λ s. (tt, refl);
}

instance abbrev pub service : Env
service = memory 1000000000000 "random"
