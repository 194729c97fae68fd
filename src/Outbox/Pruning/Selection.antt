-- ===== src/Outbox/Pruning/Selection.antt =====
-- The selection of terminal operations for pruning (storage_outbox.go).
use openbao_plugin_secrets_s.Prelude.{
  ℕ, suc, ◌+◌, ◌-◌, ◌≤◌, ◌<◌, ◌≡◌, ap, ◌⊎◌, true, List, [], ◌∷◌, In, length, arith, nat_eq,
}
use openbao_plugin_secrets_s.Records.{OutboxRecord}
use openbao_plugin_secrets_s.Outbox.Listing.{sort_by}
use openbao_plugin_secrets_s.Outbox.Listing.Sorting.{length-sort_by, In-sort_by}
use openbao_plugin_secrets_s.Outbox.Pruning.{
  Limits, select_candidates, terminal_outbox_prune_candidates, is_expired, retained_before,
  should_prune_terminal_outbox_record,
}

selected_at_most :
    (l : Limits) (index e x : ℕ) (rs : List OutboxRecord)
    → 0 < l.expired_limit
    → 0 < l.excess_limit
    → e ≤ l.expired_limit
    → x ≤ l.excess_limit
    → length (select_candidates l index e x rs) + (e + x) ≤ l.expired_limit + l.excess_limit
unfolding select_candidates should_prune_terminal_outbox_record
selected_at_most l index e x [] a b p q = omega arith
selected_at_most l index e x (r ∷ rs) a b p q = ground (
  arith,
  selected_at_most l (suc index) e x rs a b p q,
  selected_at_most l (suc index) (suc e) x rs a b,
  selected_at_most l (suc index) e (suc x) rs a b p,
)

-- Without a limit, all the excess is selected.
selected_excess :
    (l : Limits) (index e x : ℕ) (rs : List OutboxRecord)
    → l.excess_limit ≡ 0
    → l.excess ≤ index + length rs
    → l.excess ≤ index + length (select_candidates l index e x rs)
unfolding select_candidates should_prune_terminal_outbox_record
selected_excess l index e x [] z h = h
selected_excess l index e x (r ∷ rs) z h = ground (
  arith,
  selected_excess l (suc index) e (suc x) rs z,
  selected_excess l (suc index) (suc e) x rs z,
  selected_excess l (suc index) e x rs z,
)

selected_member :
    (l : Limits) (index e x : ℕ) (rs : List OutboxRecord) (r : OutboxRecord)
    → In r (select_candidates l index e x rs)
    → In r rs × ((index < l.excess) ⊎ (is_expired l.now r ≡ true))
unfolding select_candidates should_prune_terminal_outbox_record
selected_member l index e x [] r m = absurd m
selected_member l index e x (y ∷ rs) r m = grind (
  arith,
  selected_member l (suc index) e (suc x) rs r,
  selected_member l (suc index) (suc e) x rs r,
  selected_member l (suc index) e x rs r,
  ap (is_expired l.now),
)

-- The selection, with its four parameters at once.
module _ (records : List OutboxRecord) (now max_records expired_limit excess_limit : ℕ) where
  abbrev candidates : List OutboxRecord
  candidates = terminal_outbox_prune_candidates records now max_records expired_limit excess_limit

  -- With both limits set, a run selects no more operations than the two limits allow together.
  pub prune_candidates-bound :
      0 < expired_limit → 0 < excess_limit → length candidates ≤ expired_limit + excess_limit
  unfolding terminal_outbox_prune_candidates
  prune_candidates-bound a b = omega (
    arith,
    selected_at_most
        (record {
          now = now;
          excess = length records - max_records;
          expired_limit = expired_limit;
          excess_limit = excess_limit;
        })
        0 0 0 (sort_by retained_before records) a b (omega arith) (omega arith),
  )

  -- Without a limit on the excess, at most `max_records` of the operations are not selected.
  pub prune_candidates-excess : excess_limit ≡ 0 → length records ≤ max_records + length candidates
  unfolding terminal_outbox_prune_candidates
  prune_candidates-excess z = omega (
    arith,
    selected_excess
        (record {
          now = now;
          excess = length records - max_records;
          expired_limit = expired_limit;
          excess_limit = excess_limit;
        })
        0 0 0 (sort_by retained_before records) z
        (omega (arith, length-sort_by retained_before records)),
  )

  -- Every operation selected is one of the records, and unless there are more than `max_records` of
  -- them its retention time is over.
  pub prune_candidates-member :
      (r : OutboxRecord)
      → In r candidates
      → In r records × ((max_records < length records) ⊎ (is_expired now r ≡ true))
  unfolding terminal_outbox_prune_candidates
  prune_candidates-member r m =
      let (member, why) =
        selected_member
          (record {
            now = now;
            excess = length records - max_records;
            expired_limit = expired_limit;
            excess_limit = excess_limit;
          })
          0 0 0 (sort_by retained_before records) r m in
      (In-sort_by retained_before r records member, ground arith)
