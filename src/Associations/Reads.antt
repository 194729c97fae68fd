-- ===== src/Associations/Reads.antt =====
-- What a read of an association gives, from the stored contents.
use openbao_plugin_secrets_s.Prelude.{refl, String}
use openbao_plugin_secrets_s.Storage.{
  association_key, association_value, decode_failed, Contents, Env,
}
use openbao_plugin_secrets_s.Storage.Triples.{Triple, Triple-pure, Triple-throw}
use openbao_plugin_secrets_s.Storage.Reading.{Found, Decodes, Triple-read}
use openbao_plugin_secrets_s.Associations.{
  decode_association, get_association, normalize_association_defaults,
}

module _ ⦃env : Env⦄ where
  decode_association-lem : Decodes association_value decode_association
  decode_association-lem I (association_value r) = Triple-pure r (λ c h. (h, refl))
  decode_association-lem I _ = Triple-throw decode_failed (λ c h. h)

  pub Triple-get_association :
      (I : Contents → Type 0) (path id : String)
      → Triple I
          (get_association path id)
          (λ r c.
            I c
            × Found association_value normalize_association_defaults (association_key path id) r c)
          I
  unfolding get_association
  Triple-get_association I path id =
      Triple-read I (association_key path id) association_value normalize_association_defaults
        decode_association decode_association-lem
