-- ===== src/AssociationWrites/Identity.antt =====
-- The identity of an association is determined by what it reserves, and an accepted update keeps it
-- (path_associations.go, storage_records.go).
use openbao_plugin_secrets_s.Prelude.{
  ◌≡◌, sym, ap, true, false, Option, none, some, String, ◌==◌, string_eq, Bool-cases, inl, inr,
  arith,
}
use openbao_plugin_secrets_s.Records.{Stamp, AssociationRecord}
use openbao_plugin_secrets_s.Storage.{option}
use openbao_plugin_secrets_s.Naming.{secret_path, secret_key}
use openbao_plugin_secrets_s.Payload.{Codec}
use openbao_plugin_secrets_s.Associations.{association_reservation_key, raw_reservation_name}
use openbao_plugin_secrets_s.Providers.{AssociationConfig}
use openbao_plugin_secrets_s.Requests.{FieldData}
use openbao_plugin_secrets_s.AssociationFields.{
  new_association_id, reservation_name, resolve_association_names,
  validate_secret_key_association_template, validate_association_identity_update,
}
use openbao_plugin_secrets_s.AssociationRequests.{is_for}
use openbao_plugin_secrets_s.AssociationWrites.{AssociationSettings, association_record}

-- The identity is the digest of the path, the destination, the name that is reserved and the
-- granularity.
abbrev pub IsIdentified : ⦃codec : Codec⦄ → AssociationRecord → Type 0
IsIdentified r =
    r.id
    ≡ new_association_id r.path r.destination_type r.destination_name (reservation_name r)
        r.granularity

path_names :
    (o : Option String) (x y : String)
    → option {B = Option (String × String)} o none (λ n. some (n, n)) ≡ some (x, y)
    → x ≡ y
path_names none x y e = cc e
path_names (some n) x y e = cc e

key_names :
    (o : Option String) (template x y : String)
    → option {B = Option (String × String)} o none (λ n. some ("", n)) ≡ some (x, y)
    → option o template (λ n. n) ≡ y
key_names none template x y e = cc e
key_names (some n) template x y e = cc e

not_key : (granularity : String) → granularity ≡ secret_path → (granularity == secret_key) ≡ false
not_key granularity e = rw e

module _ ⦃codec : Codec⦄ where
  -- The name reserved by a new association is the one that its names were resolved to.
  raw_name :
      (path type name : String) (d : FieldData) (base : Option AssociationRecord)
      (s : AssociationSettings) (config : AssociationConfig) (x y : String) (now : Stamp)
      → resolve_association_names path type name s.granularity s.name_template s.resolved_name
        ≡ some (x, y)
      → raw_reservation_name (association_record path type name d base s config (x, y) now) ≡ y
  unfolding resolve_association_names raw_reservation_name association_record
  raw_name path type name d base s config x y now e =
      elim (Bool-cases (s.granularity == secret_path)) [
        | inl p ↦
            rw (not_key s.granularity ((string_eq.same_iff s.granularity secret_path).0 p))
              (path_names _ x y (rw p at e))
        | inr p ↦ elim (Bool-cases (s.granularity == secret_key)) [
          | inl q ↦
              elim (Bool-cases (
                validate_secret_key_association_template path type name s.name_template
                  s.resolved_name)) [
                    | inl v ↦ rw q (key_names _ s.name_template x y (rw v at rw q at rw p at e))
                    | inr v ↦ cc (rw v at rw q at rw p at e)
                  ]
          | inr q ↦ cc (rw q at rw p at e)
        ]
      ]

  -- An association that a request makes, with the names that its settings resolve to, has the identity
  -- of what it reserves.
  pub association_record-IsIdentified :
      (path type name : String) (d : FieldData) (base : Option AssociationRecord)
      (s : AssociationSettings) (config : AssociationConfig) (names : String × String) (now : Stamp)
      → resolve_association_names path type name s.granularity s.name_template s.resolved_name
        ≡ some names
      → IsIdentified (association_record path type name d base s config names now)
  unfolding association_record
  association_record-IsIdentified path type name d base s config (x, y) now e =
      ap
        (λ n.
          new_association_id path type name (association_reservation_key config.identity n)
            s.granularity)
        (sym (raw_name path type name d base s config x y now e))

  same_identity :
      (base r : AssociationRecord)
      → IsIdentified base
      → IsIdentified r
      → r.path ≡ base.path
      → r.destination_type ≡ base.destination_type
      → r.destination_name ≡ base.destination_name
      → validate_association_identity_update (some base) r ≡ true
      → r.id ≡ base.id
  unfolding validate_association_identity_update
  same_identity base r b i path type name ok =
      let granularity : r.granularity ≡ base.granularity = ground (
        arith,
        string_eq.same_iff r.granularity base.granularity,
        string_eq.same_iff r.provider_identity base.provider_identity,
        string_eq.same_iff (reservation_name r) (reservation_name base),
      ) in
      let reserved : reservation_name r ≡ reservation_name base = ground (
        arith,
        string_eq.same_iff r.granularity base.granularity,
        string_eq.same_iff r.provider_identity base.provider_identity,
        string_eq.same_iff (reservation_name r) (reservation_name base),
      ) in
      cc (granularity, reserved, i, b, path, type, name)

  -- An update of an association by a request for the same path and destination, whose names resolve and
  -- which the identity check accepts, has the identity of the association that it updates, if that has
  -- the identity of what it reserves.
  pub validate_association_identity_update-same_id :
      (path type name : String) (d : FieldData) (base : AssociationRecord) (s : AssociationSettings)
      (config : AssociationConfig) (names : String × String) (now : Stamp)
      → resolve_association_names path type name s.granularity s.name_template s.resolved_name
        ≡ some names
      → IsIdentified base
      → base.path ≡ path
      → is_for type name base ≡ true
      → validate_association_identity_update
          (some base)
          (association_record path type name d (some base) s config names now)
        ≡ true
      → (association_record path type name d (some base) s config names now).id ≡ base.id
  unfolding association_record
  validate_association_identity_update-same_id path type name d base s config (x, y) now resolved b
        p for ok =
      let same : (base.destination_type ≡ type) × (base.destination_name ≡ name) = ground (
        arith,
        string_eq.same_iff base.destination_type type,
        string_eq.same_iff base.destination_name name,
      ) in
      same_identity base (association_record path type name d (some base) s config (x, y) now) b
        (association_record-IsIdentified path type name d (some base) s config (x, y) now resolved)
        (sym p) (sym same.0) (sym same.1) ok
