-- ===== src/Outbox/Listing.antt =====
-- storage_outbox.go: listings of the outbox, and the operations that cancel what they list.
pub mod Membership
pub mod Removal
pub mod Due
pub mod Sorting
pub mod Frame
use Prim.Native.Nat.{Ordering}
use Prim.Native.String.{compare}
use openbao_plugin_secrets_s.Prelude.{
  ℕ, ◌≡◌, Bool, true, false, not, ◌&&◌, ◌||◌, List, [], ◌∷◌, ◌++◌, Option, none, some, String, ◌==◌,
  ◌!=◌, if◌then◌else◌, string_eq, nat_eq, ltb, leb, ◌/◌, ◌*◌, to_bool,
}
use openbao_plugin_secrets_s.Records.{
  second, OutboxState, OutboxState-discrete, pending, retry_wait, OutboxRecord, AssociationRecord,
  is_upsert,
}
use openbao_plugin_secrets_s.Storage.{
  Prefix, by_path, by_state, Error, queued_operation_claimed, Env, M, ◌>>=◌, ◌>>◌, pure, throw,
  option, now_utc,
}
use openbao_plugin_secrets_s.Outbox.Records.{
  get_outbox, delete_outbox, is_queued_outbox_state, outbox_due_index_time, is_outbox_claim_active,
}

abbrev pub holds {ℓ} : {A : Type ℓ} → (A → Bool) → Option A → Bool
holds p none = false
holds p (some a) = p a

-- Go's `<` on strings, byte by byte.
abbrev pub string_lt : String → String → Bool
string_lt a b = elim (compare a b) [ Ordering.lt ↦ true | _ ↦ false ]

-- The order of the strings "<time>/<id>".
abbrev due_before : ℕ × String → ℕ × String → Bool
due_before (d, i) (e, j) = ltb d e || (d == e && string_lt i j)

module _ {A : Type 0} (before : A → A → Bool) where
  unfoldable pub insert_sorted : A → List A → List A
  insert_sorted a [] = a ∷ []
  insert_sorted a (x ∷ xs) = if before x a then x ∷ insert_sorted a xs else a ∷ x ∷ xs

  -- sort.Slice and sort.Strings.
  unfoldable pub sort_by : List A → List A
  unfolding insert_sorted
  sort_by [] = []
  sort_by (x ∷ xs) = insert_sorted x (sort_by xs)

module _ ⦃env : Env⦄ where
  pub filter_outbox_ids : List String → (OutboxRecord → Bool) → M (List String)
  filter_outbox_ids [] matches = pure []
  filter_outbox_ids (id ∷ ids) matches = do
    r ← get_outbox id
    rest ← filter_outbox_ids ids matches
    pure (if holds matches r then id ∷ rest else rest)

  pub list_outbox_ids_for_state : OutboxState → M (List String)
  list_outbox_ids_for_state state = do
    ids ← env.list (by_state state)
    filter_outbox_ids ids λ r. to_bool (OutboxState-discrete r.state state)

  -- `listOutboxIDsForStates`, at the two states of `listQueuedOutboxIDs`.
  pub list_queued_outbox_ids : M (List String)
  list_queued_outbox_ids = do
    waiting ← list_outbox_ids_for_state pending
    retrying ← list_outbox_ids_for_state retry_wait
    pure (waiting ++ retrying)

  pub list_outbox_ids_for_path : String → M (List String)
  list_outbox_ids_for_path path = do
    ids ← env.list (by_path path)
    filter_outbox_ids ids λ r. r.path == path

  pub filter_queued_outbox_ids : List String → M (List String)
  filter_queued_outbox_ids ids = filter_outbox_ids ids λ r. is_queued_outbox_state r.state

  pub list_queued_outbox_ids_for_path : String → M (List String)
  list_queued_outbox_ids_for_path path = do
    ids ← list_outbox_ids_for_path path
    filter_queued_outbox_ids ids

  abbrev pub is_indexed_at : ℕ → OutboxRecord → Bool
  is_indexed_at d r = holds (λ e. e == d) (outbox_due_index_time r)

  -- The keys come sorted: the loop breaks at the first one that is not yet due.
  due_ids : ℕ → List (ℕ × String) → M (List String)
  due_ids now [] = pure []
  due_ids now ((due_time, id) ∷ keys) =
      let later = due_ids now keys in
      if id == "" then later else if ltb (now / second) due_time then pure [] else do
        r ← get_outbox id
        rest ← later
        pure (if holds (is_indexed_at due_time) r then id ∷ rest else rest)

  pub list_due_outbox_ids : ℕ → M (List String)
  list_due_outbox_ids now = do keys ← env.collect_due; due_ids now (sort_by due_before keys)

  next_due : ℕ → List (ℕ × String) → M (Option ℕ)
  next_due now [] = pure none
  next_due now ((due_time, id) ∷ keys) =
      let later = next_due now keys in
      if id == "" || leb due_time (now / second) then later else do
        r ← get_outbox id
        if holds (is_indexed_at due_time) r then pure (some (due_time * second)) else later

  pub next_future_outbox_due_time : ℕ → M (Option ℕ)
  next_future_outbox_due_time now = do
    keys ← env.collect_due
    next_due now (sort_by due_before keys)

  -- The body of the two loops that delete an association's operations: what it deleted.
  delete_unclaimed : String → OutboxRecord → M (Option String)
  delete_unclaimed association_id r = if r.association_id != association_id then pure none else do
    now ← now_utc
    if is_outbox_claim_active r now
        then throw (queued_operation_claimed r.id)
        else do delete_outbox r; pure (some r.id)

  abbrev cons_some : Option String → List String → List String
  cons_some none ids = ids
  cons_some (some id) ids = id ∷ ids

  delete_ids_for_association : String → List String → M (List String)
  delete_ids_for_association association_id [] = pure []
  delete_ids_for_association association_id (id ∷ ids) = do
    r ← get_outbox id
    deleted ← option r (pure none) (delete_unclaimed association_id)
    rest ← delete_ids_for_association association_id ids
    pure (cons_some deleted rest)

  pub delete_outbox_for_association : AssociationRecord → M (Unit {0})
  delete_outbox_for_association association = do
    ids ← list_outbox_ids_for_path association.path
    _ ← delete_ids_for_association association.id ids
    pure tt

  pub cancel_queued_outbox_for_association : AssociationRecord → M (List String)
  cancel_queued_outbox_for_association association = do
    ids ← list_queued_outbox_ids_for_path association.path
    delete_ids_for_association association.id ids

  pub queued_upsert_ids_for_path_version : String → ℕ → M (List String)
  queued_upsert_ids_for_path_version path version = do
    ids ← list_queued_outbox_ids_for_path path
    filter_outbox_ids ids λ r. r.version == version && is_upsert r.type

  -- The search loop of the two `hasQueuedUpsert` functions.
  has_outbox_record : List String → (OutboxRecord → Bool) → M Bool
  has_outbox_record [] matches = pure false
  has_outbox_record (id ∷ ids) matches =
      let later = has_outbox_record ids matches in
      do r ← get_outbox id; if holds matches r then pure true else later

  pub has_queued_upsert_for_association_object : String → String → String → ℕ → M Bool
  has_queued_upsert_for_association_object path association_id object_id min_version = do
    ids ← list_queued_outbox_ids_for_path path
    has_outbox_record ids λ r.
        is_upsert r.type
        && r.association_id == association_id
        && r.object_id == object_id
        && leb min_version r.version

  pub has_queued_upsert_for_association_version : String → String → ℕ → M Bool
  has_queued_upsert_for_association_version path association_id min_version = do
    ids ← list_queued_outbox_ids_for_path path
    has_outbox_record ids
        λ r. is_upsert r.type && r.association_id == association_id && leb min_version r.version

  cancel_unclaimed : OutboxRecord → M (Unit {0})
  cancel_unclaimed r = if not (is_queued_outbox_state r.state) then pure tt else do
    now ← now_utc
    if is_outbox_claim_active r now then throw (queued_operation_claimed r.id) else delete_outbox r

  pub cancel_queued_outbox_ids : List String → M (Unit {0})
  cancel_queued_outbox_ids [] = pure tt
  cancel_queued_outbox_ids (id ∷ ids) = do
    r ← get_outbox id
    option r (pure tt) cancel_unclaimed
    cancel_queued_outbox_ids ids

  require_unclaimed : OutboxRecord → M (Unit {0})
  require_unclaimed r = if not (is_queued_outbox_state r.state) then pure tt else do
    now ← now_utc
    if is_outbox_claim_active r now then throw (queued_operation_claimed r.id) else pure tt

  pub ensure_queued_outbox_ids_unclaimed : List String → M (Unit {0})
  ensure_queued_outbox_ids_unclaimed [] = pure tt
  ensure_queued_outbox_ids_unclaimed (id ∷ ids) = do
    r ← get_outbox id
    option r (pure tt) require_unclaimed
    ensure_queued_outbox_ids_unclaimed ids
