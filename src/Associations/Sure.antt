-- ===== src/Associations/Sure.antt =====
-- The writes of storage_association.go on a storage that does not fail.
use openbao_plugin_secrets_s.Prelude.{
  ◌≡◌, refl, ◌∙◌, ◌||◌, true, List, [], ◌∷◌, Option, none, some, String, ◌!=◌, string_eq, All,
  contains,
}
use openbao_plugin_secrets_s.Records.{AssociationRecord}
use openbao_plugin_secrets_s.Storage.{
  Key, association_key, association_by_destination_key, association_value, Contents, Env,
  delete_entry,
}
use openbao_plugin_secrets_s.Storage.Triples.{
  Triple, Triple-bind, Triple-pure, Triple-if, Triple-option, Triple-weaken, Triple-given, Ignores,
  Ignores-at, update_same,
}
use openbao_plugin_secrets_s.Storage.Faultless.{
  Faultless, Triple-put_sure, Triple-delete_sure, Triple-get_sure,
}
use openbao_plugin_secrets_s.Outbox.Records.{key_eq}
use openbao_plugin_secrets_s.Payload.{Codec}
use openbao_plugin_secrets_s.Associations.{
  put_association, put_association_records, delete_association, get_association, put_all,
  delete_all_except, delete_stale_association_indexes,
}
use openbao_plugin_secrets_s.Associations.Frame.{reservation_keys-IsIndexKey, is_index_key}
use openbao_plugin_secrets_s.Associations.Reads.{Triple-get_association}

-- The invariant does not depend on the indexes.
abbrev OfRecords : (Contents → Type 0) → Type 0
OfRecords I = Ignores is_index_key I

module _ ⦃env : Env⦄ (f : Faultless env) {I E : Contents → Type 0} (g : OfRecords I) where
  Triple-put_all :
      (ks : List Key) (path : String)
      → All (λ k. is_index_key k ≡ true) ks
      → Triple I (put_all ks path) (λ _. I) E
  unfolding put_all
  Triple-put_all [] path h = Triple-pure tt (λ c i. i)
  Triple-put_all (k ∷ ks) path h =
      Triple-bind (λ _. I) _ _ (Triple-put_sure f k _ I (λ c i. g c k _ h.0 i))
        λ _. Triple-put_all ks path h.1

  Triple-delete_all_except :
      (retained ks : List Key)
      → All (λ k. is_index_key k ≡ true) ks
      → Triple I (delete_all_except retained ks) (λ _. I) E
  unfolding delete_all_except
  Triple-delete_all_except retained [] h = Triple-pure tt (λ c i. i)
  Triple-delete_all_except retained (k ∷ ks) h =
      Triple-bind (λ _. I) _ _
        (Triple-if (contains retained k) _ _ (λ _. Triple-pure tt (λ c i. i))
          λ _. Triple-delete_sure f k I (λ c i. g c k none h.0 i))
        λ _. Triple-delete_all_except retained ks h.1

  module _ ⦃codec : Codec⦄ where
    Triple-delete_stale :
        (existing updated : AssociationRecord)
        → Triple I (delete_stale_association_indexes existing updated) (λ _. I) E
    unfolding delete_stale_association_indexes
    Triple-delete_stale existing updated =
        Triple-bind (λ _. I) _ _
          (Triple-if
            (existing.destination_type != updated.destination_type
              || existing.destination_name != updated.destination_name)
            (delete_entry (
              association_by_destination_key existing.destination_type existing.destination_name
                existing.id))
            _ (λ _. Triple-delete_sure f _ I (λ c i. g c _ none refl i))
            λ _. Triple-pure tt (λ c i. i))
          λ _. Triple-delete_all_except _ _ (reservation_keys-IsIndexKey existing)

-- The record of an association stands.
abbrev pub Stands : AssociationRecord → Contents → Type 0
Stands r c = c (association_key r.path r.id) ≡ some (association_value r)

Stands-OfRecords : (r : AssociationRecord) → OfRecords (Stands r)
Stands-OfRecords r =
    Ignores-at is_index_key (association_key r.path r.id) (λ o. o ≡ some (association_value r)) refl

Absent-OfRecords : (path id : String) → OfRecords (λ c. c (association_key path id) ≡ none)
Absent-OfRecords path id = Ignores-at is_index_key (association_key path id) (λ o. o ≡ none) refl

module _ ⦃env : Env⦄ (f : Faultless env) ⦃codec : Codec⦄ where
  -- From the first write on.
  Triple-put_rest :
      {E : Contents → Type 0} (r : AssociationRecord) (existing : Option AssociationRecord)
      → Triple (λ _. Unit {0}) (put_association_records r existing) (λ _. Stands r) E
  unfolding put_association_records
  Triple-put_rest r existing =
      Triple-bind (λ _ _. Unit {0}) _ _ (Triple-put_sure f _ _ _ (λ c i. tt))
        λ _.
          Triple-bind (λ _ _. Unit {0}) _ _
            (Triple-put_all f (λ c k v p i. tt) _ r.path (reservation_keys-IsIndexKey r))
            λ _.
              Triple-bind (λ _. Stands r) _ _
                (Triple-put_sure f _ _ (Stands r) (λ c i. update_same c _ _))
                λ _.
                  Triple-option existing _ _ (λ _. Triple-pure tt (λ c i. i))
                    λ old _. Triple-delete_stale f (Stands-OfRecords r) old r

  -- A write stores the record, or stops at an entry that does not decode, before it writes anything.
  pub Triple-put_association :
      (P : Contents → Type 0) (r : AssociationRecord)
      → Triple P (put_association r) (λ _. Stands r) P
  unfolding put_association
  Triple-put_association P r =
      Triple-bind (λ _. P) _ _
        (Triple-weaken _ (Triple-get_association P r.path r.id) (λ c h. h) (λ o c h. h.0)
          (λ c h. h))
        λ existing.
          Triple-weaken {E' = P} _ (Triple-put_rest {E = P} r existing) (λ c h. tt) (λ _ c h. h)
            (λ c h. h)

  Triple-get_stored :
      {E : Contents → Type 0} (path id : String) (old : AssociationRecord)
      → Triple
          (λ c. c (association_key path id) ≡ some (association_value old))
          (get_association path id)
          (λ _ c. c (association_key path id) ≡ some (association_value old))
          E
  unfolding get_association
  Triple-get_stored {E} path id old =
      Triple-bind
        (λ entry c.
          (c (association_key path id) ≡ some (association_value old))
          × (entry ≡ some (association_value old)))
        _ _
        (Triple-weaken {E' = E} _ (Triple-get_sure f {E = E} (association_key path id)) (λ c h. h)
          (λ entry c h. (h.0, h.1 ∙ h.0)) (λ c h. h))
        λ entry. Triple-given (entry ≡ some (association_value old)) _ λ e. rw e (
          Triple-bind (λ _ c. c (association_key path id) ≡ some (association_value old)) _ _
            (Triple-pure old (λ c h. h)) λ r. Triple-pure _ (λ c h. h))

  -- Over a record that decodes, it returns.
  pub Triple-put_association_over :
      {E : Contents → Type 0} (old r : AssociationRecord)
      → Triple
          (λ c. c (association_key r.path r.id) ≡ some (association_value old))
          (put_association r)
          (λ _. Stands r)
          E
  unfolding put_association
  Triple-put_association_over {E} old r =
      Triple-bind _ _ _ (Triple-get_stored r.path r.id old) λ existing.
        Triple-weaken {E' = E} _ (Triple-put_rest {E = E} r existing) (λ c h. tt) (λ _ c h. h)
          (λ c h. h)

  pub Triple-delete_association :
      {E : Contents → Type 0} (P : Contents → Type 0) (r : AssociationRecord)
      → Triple P (delete_association r) (λ _ c. c (association_key r.path r.id) ≡ none) E
  unfolding delete_association
  Triple-delete_association P r =
      Triple-bind (λ _ c. c (association_key r.path r.id) ≡ none) _ _
        (Triple-delete_sure f _ _ (λ c i. update_same c _ _))
        λ _.
          Triple-bind (λ _ c. c (association_key r.path r.id) ≡ none) _ _
            (Triple-delete_sure f _ _ (λ c i. Absent-OfRecords r.path r.id c _ none refl i))
            λ _.
              Triple-delete_all_except f (Absent-OfRecords r.path r.id) [] _
                (reservation_keys-IsIndexKey r)
