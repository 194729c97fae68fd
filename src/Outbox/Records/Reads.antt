-- ===== src/Outbox/Records/Reads.antt =====
-- What a read of an operation gives, from the stored contents.
use openbao_plugin_secrets_s.Prelude.{refl, String}
use openbao_plugin_secrets_s.Storage.{outbox_key, outbox_value, decode_failed, Contents, Env}
use openbao_plugin_secrets_s.Storage.Triples.{Triple, Triple-pure, Triple-throw}
use openbao_plugin_secrets_s.Storage.Reading.{Found, Decodes, Triple-read}
use openbao_plugin_secrets_s.Outbox.Records.{decode_outbox, get_outbox, normalize_outbox_defaults}

module _ ⦃env : Env⦄ where
  decode_outbox-lem : Decodes outbox_value decode_outbox
  decode_outbox-lem I (outbox_value r) = Triple-pure r (λ c h. (h, refl))
  decode_outbox-lem I _ = Triple-throw decode_failed (λ c h. h)

  pub Triple-get_outbox :
      (I : Contents → Type 0) (id : String)
      → Triple I
          (get_outbox id)
          (λ r c. I c × Found outbox_value normalize_outbox_defaults (outbox_key id) r c)
          I
  unfolding get_outbox
  Triple-get_outbox I id =
      Triple-read I (outbox_key id) outbox_value normalize_outbox_defaults decode_outbox
        decode_outbox-lem
