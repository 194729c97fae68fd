-- ===== src/Status/Frame.antt =====
-- The reads and writes of storage_status.go and the keys that they may touch.
use openbao_plugin_secrets_s.Prelude.{Bool, true, false, none, String, refl, ltb}
use openbao_plugin_secrets_s.Records.{StatusRecord}
use openbao_plugin_secrets_s.Storage.{
  Key, status_key, Value, status_value, decode_failed, Contents, Env,
}
use openbao_plugin_secrets_s.Storage.Keeps.{
  Keeps, Keeps-throw, Keeps-get, Keeps-bind, Keeps-if, Keeps-pure, Keeps-option,
}
use openbao_plugin_secrets_s.Storage.Triples.{Ignores, Keeps-put_ignored}
use openbao_plugin_secrets_s.Status.{get_status, decode_status, put_status, write_status}

abbrev pub is_status_key : Key → Bool
is_status_key (status_key _ _ _) = true
is_status_key _ = false

module _ ⦃env : Env⦄ {I : Contents → Type 0} where
  Keeps-decode_status : (v : Value) → Keeps I (decode_status v)
  Keeps-decode_status (status_value r) = Keeps-pure r
  Keeps-decode_status _ = Keeps-throw decode_failed

  pub Keeps-get_status :
      (path association_id object_id : String) → Keeps I (get_status path association_id object_id)
  unfolding get_status
  Keeps-get_status path association_id object_id =
      Keeps-bind _ _ (Keeps-get (status_key path association_id object_id)) λ entry.
        Keeps-option entry _ _ (Keeps-pure none)
          λ v. Keeps-bind _ _ (Keeps-decode_status v) λ r. Keeps-pure _

  pub Keeps-put_status : Ignores is_status_key I → (r : StatusRecord) → Keeps I (put_status r)
  unfolding put_status write_status
  Keeps-put_status g r =
      Keeps-bind _ _ (Keeps-get_status r.path r.association_id r.object_id) λ existing.
        Keeps-option existing _ _ (Keeps-put_ignored is_status_key g _ _ refl) λ old.
          Keeps-if (ltb r.version old.version) _ _ (λ _. Keeps-pure tt)
            λ _. Keeps-put_ignored is_status_key g _ _ refl
