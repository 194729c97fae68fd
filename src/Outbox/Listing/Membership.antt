-- ===== src/Outbox/Listing/Membership.antt =====
-- The listing of a path has every stored operation of the path (listOutboxIDsForPath of storage_outbox.go).
use openbao_plugin_secrets_s.Prelude.{
  ◌≡◌, ◌≢◌, sym, subst, ap, ◌∙◌, inl, inr, Bool, true, List, [], ◌∷◌, Option, none, some, String,
  In, All-In, ◌==◌, string_eq, eq_self,
}
use openbao_plugin_secrets_s.Records.{OutboxRecord}
use openbao_plugin_secrets_s.Storage.{
  outbox_key, outbox_by_path_key, outbox_value, by_path, Contents, Result, Reads, IsStored, ok, err,
  Env,
}
use openbao_plugin_secrets_s.Storage.Triples.{
  Triple, Ends, Triple-bind, Triple-pure, Triple-weaken, Triple-given, Triple-then,
}
use openbao_plugin_secrets_s.Storage.Reading.{Found}
use openbao_plugin_secrets_s.Outbox.Records.{normalize_outbox_defaults}
use openbao_plugin_secrets_s.Outbox.Records.Frame.{Keeps-get_outbox}
use openbao_plugin_secrets_s.Outbox.Records.Reads.{Triple-get_outbox}
use openbao_plugin_secrets_s.Outbox.Records.Indexed.{Indexed, path_key-In}
use openbao_plugin_secrets_s.Outbox.Listing.{holds, filter_outbox_ids, list_outbox_ids_for_path}
use openbao_plugin_secrets_s.Outbox.Listing.Due.{kept-In, taken-In}
use openbao_plugin_secrets_s.Outbox.Listing.Frame.{Keeps-filter_outbox_ids}

abbrev pub Stored : OutboxRecord → Contents → Type 0
Stored r c = c (outbox_key r.id) ≡ some (outbox_value r)

module _ ⦃env : Env⦄ where
  -- The search of the listing for the operation.
  module _ (r : OutboxRecord) (matches : OutboxRecord → Bool)
      (matching : matches (normalize_outbox_defaults r) ≡ true) where
    abbrev Start : Contents → Type 0
    Start c = Indexed c × Stored r c

    holds-Found :
        (o : Option OutboxRecord) (c : Contents)
        → Stored r c
        → Found outbox_value normalize_outbox_defaults (outbox_key r.id) o c
        → holds matches o ≡ true
    holds-Found none c s f = cc (s, f)
    holds-Found (some x) c s (y, p, e) =
        let same : y ≡ r = cc (s, e) in
        ap matches p ∙ (ap (λ z. matches (normalize_outbox_defaults z)) same ∙ matching)

    filter-finds :
        (ids : List String)
        → In r.id ids
        → Triple Start (filter_outbox_ids ids matches) (λ out c. Start c × In r.id out) Indexed
    unfolding filter_outbox_ids
    filter-finds [] m = absurd m
    filter-finds (id ∷ ids) (inl e) =
        Triple-bind (λ o c. Start c × (holds matches o ≡ true)) _ _
          (Triple-weaken {E' = Indexed} _ (Triple-get_outbox Start id) (λ c h. h)
            (λ o c h. (
              h.0,
              holds-Found o c h.0.1 (
                  subst (λ i. Found outbox_value normalize_outbox_defaults (outbox_key i) o c) e
                    h.1),
            ))
            (λ c h. h.0))
          λ o. Triple-given (holds matches o ≡ true) _ λ found.
            Triple-then _ _ (Keeps-filter_outbox_ids ids matches) (λ c h. h.0)
              λ rest. Triple-pure _ λ c h. (h, taken-In (holds matches o) r.id id rest found e)
    filter-finds (id ∷ ids) (inr m) =
        Triple-then _ _ (Keeps-get_outbox id) (λ c h. h.0)
          λ o.
            Triple-bind (λ out c. Start c × In r.id out) _ _ (filter-finds ids m)
              λ rest. Triple-pure _ λ c h. (h.0, kept-In (holds matches o) r.id id rest h.1)

  list-Reads :
      (r : OutboxRecord) (c : Contents) (a : Result env.State (List String))
      → r.path ≢ ""
      → Reads env.contents c
          (λ ids. (id : String) → IsStored c (outbox_by_path_key r.path id) → In id ids)
          a
      → Indexed c × Stored r c
      → Ends (λ ids t. (Indexed t × Stored r t) × In r.id ids) Indexed a
  list-Reads r c (ok ids t) named h i = (
    subst (λ d. Indexed d × Stored r d) (sym h.1) i,
    h.0 r.id (All-In (IsStored c) _ _ (i.0 r.id r i.1).1 (path_key-In r named)),
  )
  list-Reads r c (err e t) named h i = subst Indexed (sym h) i.0

  -- If every stored operation is in its indexes, the listing of its path has it.
  pub list_outbox_ids_for_path-member :
      (r : OutboxRecord) (path : String)
      → r.path ≡ path
      → r.path ≢ ""
      → Triple
          (λ c. Indexed c × Stored r c)
          (list_outbox_ids_for_path path)
          (λ ids c. (Indexed c × Stored r c) × In r.id ids)
          Indexed
  unfolding list_outbox_ids_for_path
  list_outbox_ids_for_path-member r path at named =
      Triple-bind (λ ids c. (Indexed c × Stored r c) × In r.id ids) _ _
        (record {
          run = λ s h.
              list-Reads r _ (env.list (by_path path) s) named
                (subst
                  (λ p.
                    Reads env.contents (env.contents s)
                      (λ ids.
                        (id : String)
                        → IsStored (env.contents s) (outbox_by_path_key p id)
                        → In id ids)
                      (env.list (by_path path) s))
                  (sym at) (env.list_lem (by_path path) s))
                h;
        })
        λ ids.
          Triple-given (In r.id ids) _
            λ m. filter-finds r (λ x. x.path == path) (rw at (eq_self path)) ids m
