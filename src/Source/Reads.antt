-- ===== src/Source/Reads.antt =====
-- What a read of a version gives, from the stored contents.
use openbao_plugin_secrets_s.Prelude.{refl, String, ℕ, some}
use openbao_plugin_secrets_s.Storage.{
  metadata_key, metadata_value, version_key, version_value, decode_failed, Contents, Env, update,
}
use openbao_plugin_secrets_s.Storage.Triples.{Triple, Triple-pure, Triple-throw, Triple-put}
use openbao_plugin_secrets_s.Storage.Reading.{Found, Decodes, Triple-read}
use openbao_plugin_secrets_s.Source.{
  decode_version, get_version, put_version, decode_metadata, get_metadata,
  normalize_metadata_defaults,
}
use openbao_plugin_secrets_s.Records.{VersionRecord}

module _ ⦃env : Env⦄ where
  decode_version-lem : Decodes version_value decode_version
  decode_version-lem I (version_value r) = Triple-pure r (λ c h. (h, refl))
  decode_version-lem I _ = Triple-throw decode_failed (λ c h. h)

  pub Triple-get_version :
      (I : Contents → Type 0) (path : String) (n : ℕ)
      → Triple I
          (get_version path n)
          (λ r c. I c × Found version_value (λ r. r) (version_key path n) r c)
          I
  unfolding get_version
  Triple-get_version I path n =
      Triple-read I (version_key path n) version_value (λ r. r) decode_version decode_version-lem

module _ ⦃env : Env⦄ {P : Contents → Type 0} where
  pub Triple-put_version :
      (path : String) (v : VersionRecord) (R E : Contents → Type 0)
      → ((c : Contents)
          → P c
          → let d = update c (version_key path v.version) (some (version_value v)) in
            R d × E c × E d)
      → Triple P (put_version path v) (λ _. R) E
  unfolding put_version
  Triple-put_version path v R E f = Triple-put (version_key path v.version) (version_value v) R E f

module _ ⦃env : Env⦄ where
  decode_metadata-lem : Decodes metadata_value decode_metadata
  decode_metadata-lem I (metadata_value r) = Triple-pure r (λ c h. (h, refl))
  decode_metadata-lem I _ = Triple-throw decode_failed (λ c h. h)

  pub Triple-get_metadata :
      (I : Contents → Type 0) (path : String)
      → Triple I
          (get_metadata path)
          (λ r c. I c × Found metadata_value normalize_metadata_defaults (metadata_key path) r c)
          I
  unfolding get_metadata
  Triple-get_metadata I path =
      Triple-read I (metadata_key path) metadata_value normalize_metadata_defaults decode_metadata
        decode_metadata-lem
