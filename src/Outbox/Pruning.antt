-- ===== src/Outbox/Pruning.antt =====
-- storage_outbox.go: which terminal operations are pruned, and their deletion. `now` is the time of
-- the call; limits are Go ints, of which those that are not positive mean no limit and are 0 here.
pub mod Selection
use openbao_plugin_secrets_s.Prelude.{
  ℕ, suc, ◌+◌, ◌-◌, ◌*◌, Bool, true, false, not, ◌&&◌, ◌||◌, List, [], ◌∷◌, Option, none, some,
  String, ◌==◌, ◌!=◌, if◌then◌else◌, nat_eq, ltb, leb, length, to_bool,
}
use openbao_plugin_secrets_s.Records.{
  second, minute, parse_time, OutboxState, OutboxState-discrete, failed_terminal, OutboxRecord,
  outbox_record_eq,
}
use openbao_plugin_secrets_s.Storage.{Env, M, ◌>>=◌, ◌>>◌, pure, by_state, option, now_utc}
use openbao_plugin_secrets_s.Outbox.Records.{get_outbox, delete_outbox, is_outbox_claim_active}
use openbao_plugin_secrets_s.Outbox.Listing.{string_lt, sort_by}

abbrev pub max_retained_terminal_outbox_records : ℕ
max_retained_terminal_outbox_records = 1000

abbrev pub default_terminal_outbox_prune_limit : ℕ
default_terminal_outbox_prune_limit = 100

abbrev pub default_terminal_outbox_excess_limit : ℕ
default_terminal_outbox_excess_limit = 100

abbrev pub terminal_outbox_retention : ℕ
terminal_outbox_retention = 7 * 24 * 60 * minute

abbrev or_parse : Option ℕ → Option ℕ → ℕ
or_parse (some t) _ = t
or_parse none (some t) = t
or_parse none none = 0

-- Go's zero time is 0.
unfoldable pub terminal_outbox_retention_time : OutboxRecord → ℕ
terminal_outbox_retention_time r = or_parse (parse_time r.updated_time) (parse_time r.created_time)

abbrev pub retained_before : OutboxRecord → OutboxRecord → Bool
retained_before a b =
    let left = terminal_outbox_retention_time a in
    let right = terminal_outbox_retention_time b in
    if left == right then string_lt a.id b.id else ltb left right

unfoldable pub should_prune_terminal_outbox_record : ℕ → ℕ → Bool → ℕ → ℕ → ℕ → ℕ → Bool
should_prune_terminal_outbox_record index excess expired expired_selected expired_limit
      excess_selected excess_limit =
    if ltb index excess
    then excess_limit == 0 || ltb excess_selected excess_limit
    else if not expired
    then false
    else expired_limit == 0 || ltb expired_selected expired_limit

-- `cutoff` is `now - terminalOutboxRetention`: the comparison is written without the subtraction.
unfoldable pub is_expired : ℕ → OutboxRecord → Bool
is_expired now r =
    let time = terminal_outbox_retention_time r in
    time != 0 && leb (time + terminal_outbox_retention) now

pub record Limits : Type 0 where
  pub now : ℕ
  pub excess : ℕ
  pub expired_limit : ℕ
  pub excess_limit : ℕ

-- The loop, with its index and the two counters.
unfoldable pub select_candidates : Limits → ℕ → ℕ → ℕ → List OutboxRecord → List OutboxRecord
unfolding should_prune_terminal_outbox_record is_expired
select_candidates l index expired_selected excess_selected [] = []
select_candidates l index expired_selected excess_selected (r ∷ rs) =
    let expired = is_expired l.now r in
    let rest = λ (e x : ℕ). select_candidates l (suc index) e x rs in
    if should_prune_terminal_outbox_record index l.excess expired expired_selected l.expired_limit
      excess_selected l.excess_limit
    then r
      ∷ (if ltb index l.excess
          then rest expired_selected (suc excess_selected)
          else if expired
          then rest (suc expired_selected) excess_selected
          else rest expired_selected excess_selected)
    else rest expired_selected excess_selected

unfoldable pub terminal_outbox_prune_candidates :
    List OutboxRecord → ℕ → ℕ → ℕ → ℕ → List OutboxRecord
terminal_outbox_prune_candidates records now max_records expired_limit excess_limit =
    select_candidates
      (record {
        now = now;
        excess = length records - max_records;
        expired_limit = expired_limit;
        excess_limit = excess_limit;
      })
      0 0 0 (sort_by retained_before records)

module _ ⦃env : Env⦄ where
  abbrev cons_terminal : Option OutboxRecord → List OutboxRecord → List OutboxRecord
  cons_terminal none rs = rs
  cons_terminal (some r) rs =
      if to_bool (OutboxState-discrete r.state failed_terminal) then r ∷ rs else rs

  read_terminal : List String → M (List OutboxRecord)
  read_terminal [] = pure []
  read_terminal (id ∷ ids) = do
    r ← get_outbox id
    rest ← read_terminal ids
    pure (cons_terminal r rest)

  pub terminal_outbox_records : M (List OutboxRecord)
  terminal_outbox_records = do ids ← env.list (by_state failed_terminal); read_terminal ids

  -- The candidate is read again: it is deleted only if it is still the record that was selected.
  prune_current : OutboxRecord → OutboxRecord → M Bool
  prune_current expected current = do
    now ← now_utc
    let changed =
        current != expected
        || not (to_bool (OutboxState-discrete current.state failed_terminal))
        || is_outbox_claim_active current now
    if changed then pure false else do delete_outbox current; pure true

  pub prune_terminal_outbox_record : OutboxRecord → M Bool
  prune_terminal_outbox_record expected = do
    current ← get_outbox expected.id
    option current (pure false) (prune_current expected)

  prune_candidates : ℕ → List OutboxRecord → M ℕ
  prune_candidates deleted [] = pure deleted
  prune_candidates deleted (r ∷ rs) = do
    pruned ← prune_terminal_outbox_record r
    prune_candidates (if pruned then suc deleted else deleted) rs

  pub prune_terminal_outbox_records_limit : ℕ → ℕ → ℕ → ℕ → M ℕ
  prune_terminal_outbox_records_limit now max_records expired_limit excess_limit = do
    records ← terminal_outbox_records
    prune_candidates 0
        (terminal_outbox_prune_candidates records now max_records expired_limit excess_limit)

  pub prune_terminal_outbox_records : ℕ → M (Unit {0})
  prune_terminal_outbox_records now = do
    _ ←
        prune_terminal_outbox_records_limit now max_retained_terminal_outbox_records
          default_terminal_outbox_prune_limit default_terminal_outbox_excess_limit
    pure tt
