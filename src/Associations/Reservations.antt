-- ===== src/Associations/Reservations.antt =====
-- internal/backend/storage_association.go and path_associations.go: who reserves a name at a destination, and
-- the reservations that a new payload asks for.
use openbao_plugin_secrets_s.Prelude.{
  Bool, true, false, ◌&&◌, List, [], ◌∷◌, Option, none, some, String, ◌==◌, ◌!=◌, if◌then◌else◌,
  string_eq, contains,
}
use openbao_plugin_secrets_s.Records.{AssociationRecord, SecretPayload}
use openbao_plugin_secrets_s.Storage.{
  association_name_key, reservations_of, refused, Env, M, ◌>>=◌, ◌>>◌, pure, throw, option,
}
use openbao_plugin_secrets_s.Outbox.Records.{key_eq}
use openbao_plugin_secrets_s.Payload.{Codec}
use openbao_plugin_secrets_s.Associations.{
  get_association_from_index, reservation_names_of, association_with_concrete_reservation_names,
}

module _ ⦃env : Env⦄ ⦃codec : Codec⦄ where
  abbrev reserves : String → Option AssociationRecord → Bool
  reserves name none = false
  reserves name (some r) = contains (reservation_names_of r) name

  abbrev is_of_reference : String → Option AssociationRecord → Bool
  is_of_reference reference none = false
  is_of_reference reference (some r) = r.destination_ref == reference

  live_reservations : String → String → List String → M (List String)
  live_reservations reference name [] = pure []
  live_reservations reference name (id ∷ ids) = do
    r ← get_association_from_index (association_name_key reference (codec.name_digest name) id) id
    rest ← live_reservations reference name ids
    pure (if is_of_reference reference r && reserves name r then id ∷ rest else rest)

  pub list_association_name_reservation_ids : String → String → M (List String)
  list_association_name_reservation_ids reference name = do
    ids ← env.list (reservations_of reference (codec.name_digest name))
    live_reservations reference name ids

  abbrev only_own : String → List String → Bool
  only_own id [] = true
  only_own id (i ∷ []) = i == id
  only_own id (i ∷ j ∷ more) = false

  pub validate_association_name_reservations : String → List String → String → M (Unit {0})
  validate_association_name_reservations reference [] id = pure tt
  validate_association_name_reservations reference (name ∷ names) id = do
    ids ← list_association_name_reservation_ids reference name
    if only_own id ids
        then validate_association_name_reservations reference names id
        else throw (refused "reserved")

  -- The map `seen`: destination reference, name and owner.
  abbrev Seen : Type 0
  Seen = List (String × String × String)

  abbrev owner_of : String → String → Seen → Option String
  owner_of reference name [] = none
  owner_of reference name ((d, n, owner) ∷ seen) =
      if d == reference && n == name then some owner else owner_of reference name seen

  abbrev see_names : AssociationRecord → List String → Seen → Option Seen
  see_names r [] seen = some seen
  see_names r (name ∷ names) seen =
      if option (owner_of r.destination_ref name seen) false (λ owner. owner != r.id)
      then none
      else see_names r names ((r.destination_ref, name, r.id) ∷ seen)

  abbrev same_names : List String → List String → Bool
  same_names [] [] = true
  same_names (x ∷ xs) (y ∷ ys) = x == y && same_names xs ys
  same_names _ _ = false

  reservation_updates : List AssociationRecord → SecretPayload → Seen → M (List AssociationRecord)
  reservation_updates [] payload seen = pure []
  reservation_updates (r ∷ rs) payload seen =
      option (association_with_concrete_reservation_names r payload) (throw (refused "names"))
        λ updated.
          option (see_names updated (reservation_names_of updated) seen)
            (throw (refused "reserved"))
            λ seen'. do
              validate_association_name_reservations updated.destination_ref
                  (reservation_names_of updated) updated.id
              rest ← reservation_updates rs payload seen'
              pure (
                  if same_names r.reservation_names updated.reservation_names
                  then rest
                  else updated ∷ rest)

  pub association_reservation_updates_for_payload :
      List AssociationRecord → SecretPayload → M (List AssociationRecord)
  association_reservation_updates_for_payload rs payload = reservation_updates rs payload []
