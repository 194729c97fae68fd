-- ===== src/Associations/Frame.antt =====
-- The reads and writes of storage_association.go and the keys that they may touch.
use openbao_plugin_secrets_s.Prelude.{
  not, ◌≡◌, refl, ◌||◌, Bool, true, false, List, [], ◌∷◌, none, String, All, ◌==◌, ◌!=◌, string_eq,
  contains, map,
}
use openbao_plugin_secrets_s.Records.{AssociationRecord, DestinationRecord}
use openbao_plugin_secrets_s.Storage.{
  Key, association_key, association_by_destination_key, association_name_key, association_value,
  destination_key, destination_value, sensitive_value, associations_of, Value, decode_failed,
  Contents, Env, delete_entry,
}
use openbao_plugin_secrets_s.Storage.Keeps.{
  Keeps, Keeps-throw, Keeps-get, Keeps-list, Keeps-bind, Keeps-if, Keeps-pure, Keeps-option,
}
use openbao_plugin_secrets_s.Storage.Triples.{Ignores, Keeps-put_ignored, Keeps-delete_ignored}
use openbao_plugin_secrets_s.Outbox.Records.{key_eq}
use openbao_plugin_secrets_s.Payload.{Codec}
use openbao_plugin_secrets_s.Associations.{
  decode_sensitive, get_destination_sensitive_config_for_record, destination_config,
  get_association, decode_association, put_all, delete_all_except, put_association,
  put_association_records, reservation_keys, delete_stale_association_indexes, reservation_names_of,
  get_destination, decode_destination, read_associations, enabled_associations,
  enabled_associations_for_path, list_associations_for_path,
}

abbrev pub is_association_key : Key → Bool
is_association_key (association_key _ _) = true
is_association_key (association_by_destination_key _ _ _) = true
is_association_key (association_name_key _ _ _) = true
is_association_key _ = false

-- The keys of the indexes.
abbrev pub is_index_key : Key → Bool
is_index_key (association_by_destination_key _ _ _) = true
is_index_key (association_name_key _ _ _) = true
is_index_key _ = false

abbrev IsAssociationKey : Key → Type 0
IsAssociationKey k = is_association_key k ≡ true

name_keys :
    (d id : String) (digest : String → String) (names : List String)
    → All IsAssociationKey (map (λ name. association_name_key d (digest name) id) names)
name_keys d id digest [] = tt
name_keys d id digest (n ∷ ns) = (refl, name_keys d id digest ns)

name_keys-IsIndexKey :
    (d id : String) (digest : String → String) (names : List String)
    → All (λ k. is_index_key k ≡ true) (map (λ name. association_name_key d (digest name) id) names)
name_keys-IsIndexKey d id digest [] = tt
name_keys-IsIndexKey d id digest (n ∷ ns) = (refl, name_keys-IsIndexKey d id digest ns)

module _ ⦃env : Env⦄ ⦃codec : Codec⦄ where
  pub reservation_keys-IsIndexKey :
      (r : AssociationRecord) → All (λ k. is_index_key k ≡ true) (reservation_keys r)
  unfolding reservation_keys
  reservation_keys-IsIndexKey r =
      name_keys-IsIndexKey _ _ codec.name_digest (reservation_names_of r)

module _ ⦃env : Env⦄ {I : Contents → Type 0} where
  Keeps-decode_association : (v : Value) → Keeps I (decode_association v)
  Keeps-decode_association (association_value r) = Keeps-pure r
  Keeps-decode_association _ = Keeps-throw decode_failed

  pub Keeps-get_association : (path id : String) → Keeps I (get_association path id)
  unfolding get_association
  Keeps-get_association path id = Keeps-bind _ _ (Keeps-get (association_key path id)) λ entry.
      Keeps-option entry _ _ (Keeps-pure none)
        λ v. Keeps-bind _ _ (Keeps-decode_association v) λ r. Keeps-pure _

module _ ⦃env : Env⦄ {I : Contents → Type 0} (g : Ignores is_association_key I) where
  Keeps-put_all :
      (ks : List Key) (path : String) → All IsAssociationKey ks → Keeps I (put_all ks path)
  unfolding put_all
  Keeps-put_all [] path h = Keeps-pure tt
  Keeps-put_all (k ∷ ks) path h =
      Keeps-bind _ _ (Keeps-put_ignored is_association_key g k _ h.0) λ _. Keeps-put_all ks path h.1

  Keeps-delete_all_except :
      (retained ks : List Key) → All IsAssociationKey ks → Keeps I (delete_all_except retained ks)
  unfolding delete_all_except
  Keeps-delete_all_except retained [] h = Keeps-pure tt
  Keeps-delete_all_except retained (k ∷ ks) h =
      Keeps-bind _ _
        (Keeps-if (contains retained k) _ _ (λ _. Keeps-pure tt)
          λ _. Keeps-delete_ignored is_association_key g k h.0)
        λ _. Keeps-delete_all_except retained ks h.1

  module _ ⦃codec : Codec⦄ where
    reservation_keys-IsAssociationKey :
        (r : AssociationRecord) → All IsAssociationKey (reservation_keys r)
    unfolding reservation_keys
    reservation_keys-IsAssociationKey r = name_keys _ _ codec.name_digest (reservation_names_of r)

    Keeps-delete_stale :
        (existing updated : AssociationRecord)
        → Keeps I (delete_stale_association_indexes existing updated)
    unfolding delete_stale_association_indexes
    Keeps-delete_stale existing updated =
        Keeps-bind _ _
          (Keeps-if
            (existing.destination_type != updated.destination_type
              || existing.destination_name != updated.destination_name)
            (delete_entry (
              association_by_destination_key existing.destination_type existing.destination_name
                existing.id))
            _ (λ _. Keeps-delete_ignored is_association_key g _ refl) λ _. Keeps-pure tt)
          λ _. Keeps-delete_all_except _ _ (reservation_keys-IsAssociationKey existing)

    pub Keeps-put_association : (r : AssociationRecord) → Keeps I (put_association r)
    unfolding put_association put_association_records
    Keeps-put_association r = Keeps-bind _ _ (Keeps-get_association r.path r.id) λ existing.
        Keeps-bind _ _ (Keeps-put_ignored is_association_key g _ _ refl) λ _.
          Keeps-bind _ _ (Keeps-put_all _ r.path (reservation_keys-IsAssociationKey r)) λ _.
            Keeps-bind _ _ (Keeps-put_ignored is_association_key g _ _ refl)
              λ _. Keeps-option existing _ _ (Keeps-pure tt) λ old. Keeps-delete_stale old r

module _ ⦃env : Env⦄ {I : Contents → Type 0} where
  Keeps-decode_destination : (v : Value) → Keeps I (decode_destination v)
  Keeps-decode_destination (destination_value r) = Keeps-pure r
  Keeps-decode_destination _ = Keeps-throw decode_failed

  pub Keeps-get_destination : (type name : String) → Keeps I (get_destination type name)
  unfolding get_destination
  Keeps-get_destination type name = Keeps-bind _ _ (Keeps-get (destination_key type name)) λ entry.
      Keeps-option entry _ _ (Keeps-pure none)
        λ v. Keeps-bind _ _ (Keeps-decode_destination v) λ r. Keeps-pure _

  Keeps-read_associations :
      (path : String) (ids : List String) → Keeps I (read_associations path ids)
  unfolding read_associations
  Keeps-read_associations path [] = Keeps-pure []
  Keeps-read_associations path (id ∷ ids) =
      Keeps-bind _ _ (Keeps-get_association path id)
        λ r. Keeps-bind _ _ (Keeps-read_associations path ids) λ rest. Keeps-pure _

  Keeps-enabled_associations : (rs : List AssociationRecord) → Keeps I (enabled_associations rs)
  unfolding enabled_associations
  Keeps-enabled_associations [] = Keeps-pure []
  Keeps-enabled_associations (r ∷ rs) =
      Keeps-if (not r.enabled) _ _ (λ _. Keeps-enabled_associations rs)
        λ _.
          Keeps-bind _ _ (Keeps-get_destination r.destination_type r.destination_name)
            λ d. Keeps-bind _ _ (Keeps-enabled_associations rs) λ rest. Keeps-pure _

  pub Keeps-enabled_associations_for_path :
      (path : String) → Keeps I (enabled_associations_for_path path)
  unfolding enabled_associations_for_path list_associations_for_path
  Keeps-enabled_associations_for_path path =
      Keeps-bind _ _
        (Keeps-bind _ _ (Keeps-list (associations_of path)) λ ids. Keeps-read_associations path ids)
        λ rs. Keeps-enabled_associations rs

  Keeps-decode_sensitive : (v : Value) → Keeps I (decode_sensitive v)
  Keeps-decode_sensitive (sensitive_value s) = Keeps-pure s
  Keeps-decode_sensitive _ = Keeps-throw decode_failed

  pub Keeps-get_destination_sensitive_config_for_record :
      (r : DestinationRecord) → Keeps I (get_destination_sensitive_config_for_record r)
  unfolding get_destination_sensitive_config_for_record
  Keeps-get_destination_sensitive_config_for_record r =
      Keeps-if (r.sensitive_config_version == "none") _ _ (λ _. Keeps-pure none)
        λ _. Keeps-bind _ _ (Keeps-get _) λ entry.
          Keeps-option entry _ _ (Keeps-pure none)
            λ v. Keeps-bind _ _ (Keeps-decode_sensitive v) λ s. Keeps-pure _

  pub Keeps-destination_config : (r : DestinationRecord) → Keeps I (destination_config r)
  unfolding destination_config
  Keeps-destination_config r =
      Keeps-bind _ _ (Keeps-get_destination_sensitive_config_for_record r) λ s. Keeps-pure _
