-- ===== src/Data/Cas.antt =====
-- The check-and-set test of path_data.go.
use openbao_plugin_secrets_s.Prelude.{ℕ, ◌≡◌, ◌↔◌, true, false, Option, none, some, arith, nat_eq}
use openbao_plugin_secrets_s.Records.{MetadataRecord}
use openbao_plugin_secrets_s.Data.{check_cas}

-- What the option asks for: nothing unless the path requires it, else the current version.
abbrev pub CasHolds : MetadataRecord → Option ℕ → Type 0
CasHolds m none = m.cas_required ≡ false
CasHolds m (some version) = version ≡ m.current_version

-- A write passes the check-and-set test exactly when it names the current version of the path, or
-- names no version on a path that does not require one.
pub check_cas_iff :
    (m : MetadataRecord) (cas : Option ℕ) → (check_cas m cas ≡ true) ↔ CasHolds m cas
unfolding check_cas
check_cas_iff m none = ground arith
check_cas_iff m (some v) = ground arith
