-- ===== src/Associations/StoredConfig.antt =====
-- The configuration of a destination as one value, from its record and its sensitive configuration
-- (storage_destination.go, destinationConfig of path_destinations.go).
use openbao_plugin_secrets_s.Prelude.{
  ◌≡◌, refl, sym, ap, ◌∙◌, ◌⊎◌, inl, inr, List, [], Option, none, some, String, ◌==◌, if◌then◌else◌,
  string_eq, Bool-cases,
}
use openbao_plugin_secrets_s.Records.{DestinationRecord, DestinationSensitiveRecord}
use openbao_plugin_secrets_s.Storage.{
  destination_key, Value, destination_value, sensitive_value, Contents,
}
use openbao_plugin_secrets_s.Associations.{sensitive_key_of, override_entries}

-- The configuration that a stored record and a stored sensitive configuration make.
abbrev sensitive_part : Option Value → List (String × String)
sensitive_part (some (sensitive_value s)) = s.config
sensitive_part _ = []

abbrev configured : DestinationRecord → Contents → List (String × String)
configured r c =
    override_entries
      (if r.sensitive_config_version == "none"
        then []
        else sensitive_part (c (sensitive_key_of r.type r.name r.sensitive_config_version)))
      r.config

abbrev pub config_of : Option Value → Contents → Option (List (String × String))
config_of (some (destination_value r)) c = some (configured r c)
config_of _ c = none

-- The abstract view: a destination has one configuration, or none.
abbrev pub stored_config : String → String → Contents → Option (List (String × String))
stored_config type name c = config_of (c (destination_key type name)) c

-- What stands at the destination before a write of `r`: nothing, or a record of which `r` has the
-- version of the sensitive configuration.
abbrev pub Replaces : DestinationRecord → Contents → Type 0
Replaces r c =
    ((c (destination_key r.type r.name) ≡ none) × (r.sensitive_config_version ≡ ""))
    ⊎ ((old : DestinationRecord) × (c (destination_key r.type r.name)
          ≡ some (destination_value old))
        × (old.type ≡ r.type)
        × (old.name ≡ r.name)
        × (old.sensitive_config_version ≡ r.sensitive_config_version))

pub sensitive_key-ne :
    (type name v w : String)
    → ¬ (v ≡ "")
    → ¬ (v ≡ w)
    → ¬ (sensitive_key_of type name v ≡ sensitive_key_of type name w)
sensitive_key-ne type name v w filled other e = elim (Bool-cases (v == "")) [
  | inl p ↦ filled ((string_eq.same_iff v "").0 p)
  | inr p ↦ elim (Bool-cases (w == "")) [ inl q ↦ cc (e, p, q) | inr q ↦ other (cc (e, p, q)) ]
]

pub sensitive_key-ne-destination_key :
    (type name v : String) → ¬ (sensitive_key_of type name v ≡ destination_key type name)
sensitive_key-ne-destination_key type name v e = elim (Bool-cases (v == "")) [
  | inl p ↦ cc (e, p)
  | inr p ↦ cc (e, p)
]

module _ (r : DestinationRecord) (d s : Option Value) where
  -- The record and the sensitive configuration stand as before.
  abbrev pub Old : Contents → Type 0
  Old c =
      (c (destination_key r.type r.name) ≡ d)
      × (c (sensitive_key_of r.type r.name r.sensitive_config_version) ≡ s)

  abbrev pub New : String → Contents → Type 0
  New version c =
      c (destination_key r.type r.name)
      ≡ some (destination_value (record r { sensitive_config_version = version }))

-- The sensitive configuration of the new version.
abbrev pub Written : DestinationRecord → DestinationSensitiveRecord → String → Contents → Type 0
Written r s version c = c (sensitive_key_of r.type r.name version) ≡ some (sensitive_value s)

pub Old-config :
    (r : DestinationRecord) (c e : Contents)
    → Replaces r c
    → Old r
        (c (destination_key r.type r.name))
        (c (sensitive_key_of r.type r.name r.sensitive_config_version))
        e
    → stored_config r.type r.name e ≡ stored_config r.type r.name c
Old-config r c e (inl (absent, _)) old = rw (old.0, absent) refl
Old-config r c e (inr (was, stored, type, name, version)) old =
    let key : sensitive_key_of was.type was.name was.sensitive_config_version
        ≡ sensitive_key_of r.type r.name r.sensitive_config_version =
      cc (type, name, version) in
    let same : e (sensitive_key_of was.type was.name was.sensitive_config_version)
        ≡ c (sensitive_key_of was.type was.name was.sensitive_config_version) =
      ap e key ∙ (old.1 ∙ sym (ap c key)) in
    ap (λ o. config_of o e) (old.0 ∙ stored)
    ∙ (ap
          (λ v. some (
            override_entries
              (if was.sensitive_config_version == "none" then [] else sensitive_part v) was.config))
          same
        ∙ sym (ap (λ o. config_of o c) stored))

pub New-config :
    (r : DestinationRecord) (s : DestinationSensitiveRecord) (version : String) (c : Contents)
    → ¬ (version ≡ "none")
    → New r none none version c
    → Written r s version c
    → stored_config r.type r.name c ≡ some (override_entries s.config r.config)
New-config r s version c named new written =
    ap (λ o. config_of o c) new ∙ elim (Bool-cases (version == "none")) [
      | inl p ↦ absurd (named ((string_eq.same_iff version "none").0 p))
      | inr p ↦ rw (p, written) refl
    ]

pub New-config_none :
    (r : DestinationRecord) (c : Contents)
    → New r none none "none" c
    → stored_config r.type r.name c ≡ some r.config
New-config_none r c new = ap (λ o. config_of o c) new

-- The destination's configuration is the one given.
abbrev pub Configured : DestinationRecord → Option (List (String × String)) → Contents → Type 0
Configured r config c = stored_config r.type r.name c ≡ config

abbrev pub Replaced : DestinationRecord → List (String × String) → Contents → Type 0
Replaced r sensitive c = Configured r (some (override_entries sensitive r.config)) c
