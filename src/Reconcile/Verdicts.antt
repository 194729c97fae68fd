-- ===== src/Reconcile/Verdicts.antt =====
-- When a remote object counts as synced, and what may be repaired (path_reconcile.go,
-- periodic_reconcile.go).
use openbao_plugin_secrets_s.Prelude.{
  ℕ, ℤ, pos, negsuc, pos_part, at_least, ◌≡◌, refl, ◌↔◌, ◌⊎◌, inl, ◌&&◌, true, false, String,
  string_eq, nat_eq, arith,
}
use openbao_plugin_secrets_s.Records.{synced}
use openbao_plugin_secrets_s.Providers.{RemoteState}
use openbao_plugin_secrets_s.Reconcile.{differs_from, reconcile_state_for_remote_state}

-- The remote object is there, is not known to be another's, and carries the desired payload, of the
-- desired version if it tells a positive one.
pub record Matches (version : ℕ) (sha256 : String) (remote : RemoteState) : Type 0 where
  pub there : remote.exists ≡ true
  pub ours : (remote.ownership_known ≡ false) ⊎ (remote.owned ≡ true)
  pub of_version : (pos_part remote.source_version ≡ 0) ⊎ (remote.source_version ≡ pos version)
  pub of_payload : remote.payload_sha256 ≡ sha256

passes_version :
    (version : ℕ) (told : ℤ)
    → ((at_least 1 told && differs_from version told) ≡ false)
      ↔ ((pos_part told ≡ 0) ⊎ (told ≡ pos version))
passes_version version (pos n) = ground (arith, nat_eq.same_iff n version)
passes_version version (negsuc n) = (λ _. inl refl, λ _. refl)

module _ (version : ℕ) (sha256 : String) (remote : RemoteState) where
  synced-Matches :
      (reconcile_state_for_remote_state version sha256 remote).state ≡ synced
      → Matches version sha256 remote
  unfolding reconcile_state_for_remote_state
  synced-Matches e =
      let same = string_eq.same_iff remote.payload_sha256 sha256 in
      let blank = string_eq.same_iff remote.payload_sha256 "" in
      let version_passes = passes_version version remote.source_version in
      record {
        there = ground arith;
        ours = ground arith;
        of_version = ground arith;
        of_payload = ground arith;
      }

  -- Reconciliation reports an object as synced exactly when it is there, is not known to be another's,
  -- and carries the desired payload, of the desired version if it tells a positive one.
  pub reconcile_state_for_remote_state-synced_iff :
      ((reconcile_state_for_remote_state version sha256 remote).state ≡ synced)
      ↔ Matches version sha256 remote
  unfolding reconcile_state_for_remote_state
  reconcile_state_for_remote_state-synced_iff = (
    synced-Matches,
    λ m. ground (
      arith,
      string_eq.same_iff remote.payload_sha256 sha256,
      string_eq.same_iff remote.payload_sha256 "",
      passes_version version remote.source_version,
    ),
  )
