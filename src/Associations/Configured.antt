-- ===== src/Associations/Configured.antt =====
-- destinationConfig (path_destinations.go) reads, key by key, what the two stored records say.
use openbao_plugin_secrets_s.Prelude.{
  ◌≡◌, ◌≢◌, refl, sym, subst, ap, ◌∙◌, Option, none, some, String, List, [], ◌∷◌, ◌==◌,
  if◌then◌else◌, string_eq, Bool-cases, inl, inr, arith,
}
use openbao_plugin_secrets_s.Records.{DestinationRecord, DestinationSensitiveRecord}
use openbao_plugin_secrets_s.Storage.{
  destination_sensitive_key, destination_sensitive_version_key, Key, Value, sensitive_value,
  Contents, Result, ok, err, Reads, Env, ◌>>=◌, pure, option, get_entry,
}
use openbao_plugin_secrets_s.Storage.Triples.{
  Triple, Triple-bind, Triple-pure, Triple-if, Triple-weaken, Triple-start, Triple-given, Ends,
}
use openbao_plugin_secrets_s.Storage.Faultless.{IsOk}
use openbao_plugin_secrets_s.Associations.{
  decode_sensitive, sensitive_key_of, get_destination_sensitive_config_for_record,
  destination_config, set_entry, override_entries,
}

-- `config[key]` of a Go map by its entries.
unfoldable pub entry_at : String → List (String × String) → Option String
entry_at key [] = none
entry_at key ((k, v) ∷ m) = if k == key then some v else entry_at key m

-- No key twice, as in a Go map.
abbrev pub NamesOnce : List (String × String) → Type 0
NamesOnce [] = Unit
NamesOnce ((k, _) ∷ m) = (entry_at k m ≡ none) × NamesOnce m

abbrev pub SensitiveNamesOnce : Option DestinationSensitiveRecord → Type 0
SensitiveNamesOnce none = Unit
SensitiveNamesOnce (some s) = NamesOnce s.config

abbrev pub stored : Option DestinationSensitiveRecord → Option Value
stored none = none
stored (some s) = some (sensitive_value s)

-- The sensitive configuration of a record, by the version that the record names: the version "none" has
-- none, the empty version is the entry without a version, and any other one has an entry of its own.
pub data SensitiveStands (r : DestinationRecord) (s : Option DestinationSensitiveRecord)
    (c : Contents) : Type 0 where
  no_version : r.sensitive_config_version ≡ "none" → s ≡ none → SensitiveStands r s c
  unversioned :
      r.sensitive_config_version ≡ ""
      → c (destination_sensitive_key r.type r.name) ≡ stored s
      → SensitiveStands r s c
  versioned :
      r.sensitive_config_version ≢ "none"
      → r.sensitive_config_version ≢ ""
      → c (destination_sensitive_version_key r.type r.name r.sensitive_config_version) ≡ stored s
      → SensitiveStands r s c

-- The value of a key: that of the sensitive configuration if it has one, or that of the record.
abbrev pub in_force : DestinationRecord → Option DestinationSensitiveRecord → String → Option String
in_force r none key = entry_at key r.config
in_force r (some s) key = option (entry_at key s.config) (entry_at key r.config) some

entry_at-set_entry :
    (key k v : String) (m : List (String × String))
    → entry_at key (set_entry (k, v) m) ≡ (if k == key then some v else entry_at key m)
unfolding entry_at
entry_at-set_entry key k v [] = refl
entry_at-set_entry key k v ((j, w) ∷ m) = ground (
  arith,
  entry_at-set_entry key k v m,
  string_eq.same_iff j k,
  string_eq.same_iff k key,
  string_eq.same_iff j key,
)

entry_at-override_entries :
    (key : String) (es m : List (String × String))
    → NamesOnce es
    → entry_at key (override_entries es m) ≡ option (entry_at key es) (entry_at key m) some
unfolding entry_at
entry_at-override_entries key [] m h = refl
entry_at-override_entries key ((k, v) ∷ es) m h =
    let rest =
      entry_at-override_entries key es (set_entry (k, v) m) h.1
      ∙ ap (λ x. option (entry_at key es) x some) (entry_at-set_entry key k v m) in
    elim (Bool-cases (k == key)) [
      | inl e ↦
          let absent : entry_at key es ≡ none =
            subst (λ j. entry_at j es ≡ none) ((string_eq.same_iff k key).0 e) h.0 in
          rw e (rw (e, absent) at rest)
      | inr e ↦ rw e (rw e at rest)
    ]

-- A read of the storage over these contents fails.
abbrev pub ReadFails : Env → Contents → Type 0
ReadFails env c = (k : Key) × (s : env.State) × (env.contents s ≡ c) × ¬ (IsOk (env.get k s))

module _ ⦃env : Env⦄ where
  Triple-get_unless :
      (c : Contents) (k : Key)
      → Triple
          (λ d. d ≡ c)
          (get_entry k)
          (λ v d. (d ≡ c) × (v ≡ c k))
          (λ d. (d ≡ c) × ReadFails env d)
  Triple-get_unless c k = record { run = λ s p. got s (env.get k s) refl (env.get_lem k s) p }
    where
      got :
          (s : env.State) (r : Result env.State (Option Value))
          → env.get k s ≡ r
          → Reads env.contents (env.contents s) (λ v. v ≡ env.contents s k) r
          → env.contents s ≡ c
          → Ends (λ v d. (d ≡ c) × (v ≡ c k)) (λ d. (d ≡ c) × ReadFails env d) r
      got s (ok v t) e h p = (h.1 ∙ p, h.0 ∙ ap (λ (d : Contents). d k) p)
      got s (err x t) e h p = (h ∙ p, (k, s, sym h, subst (λ r. ¬ (IsOk r)) (sym e) (λ f. f)))

  module _ (r : DestinationRecord) (c : Contents) where
    Triple-read_sensitive :
        (s : Option DestinationSensitiveRecord) (k : Key)
        → sensitive_key_of r.type r.name r.sensitive_config_version ≡ k
        → r.sensitive_config_version ≢ "none"
        → c k ≡ stored s
        → Triple
            (λ d. d ≡ c)
            (get_destination_sensitive_config_for_record r)
            (λ o d. (d ≡ c) × (o ≡ s))
            (λ d. (d ≡ c) × ReadFails env d)
    unfolding get_destination_sensitive_config_for_record
    Triple-read_sensitive s k at named e =
        Triple-if (r.sensitive_config_version == "none") _ _
          (λ p. absurd (named ((string_eq.same_iff r.sensitive_config_version "none").0 p)))
          λ _. Triple-bind _ _ _ (Triple-get_unless c _) λ entry.
            Triple-given (entry ≡ c (sensitive_key_of r.type r.name r.sensitive_config_version)) _
              λ q. rw (q ∙ (ap c at ∙ e)) (Triple-decoded s)
      where
        Triple-decoded :
            (s : Option DestinationSensitiveRecord)
            → Triple
                (λ d. d ≡ c)
                (option (stored s) (pure none) λ v. do x ← decode_sensitive v; pure (some x))
                (λ o d. (d ≡ c) × (o ≡ s))
                (λ d. (d ≡ c) × ReadFails env d)
        Triple-decoded none = Triple-pure none (λ d h. (h, refl))
        Triple-decoded (some x) =
            Triple-bind (λ y d. (d ≡ c) × (y ≡ x)) _ _ (Triple-pure x (λ d h. (h, refl)))
              λ y. Triple-pure _ (λ d h. (h.0, ap some h.1))

    Triple-get_sensitive :
        (s : Option DestinationSensitiveRecord)
        → SensitiveStands r s c
        → Triple
            (λ d. d ≡ c)
            (get_destination_sensitive_config_for_record r)
            (λ o d. (d ≡ c) × (o ≡ s))
            (λ d. (d ≡ c) × ReadFails env d)
    unfolding get_destination_sensitive_config_for_record
    Triple-get_sensitive s (no_version v e) =
        Triple-if (r.sensitive_config_version == "none") _ _
          (λ _. Triple-pure none (λ d h. (h, sym e)))
          λ p. cc ((string_eq.same_iff r.sensitive_config_version "none").1 v, p)
    Triple-get_sensitive s (unversioned v e) =
        Triple-read_sensitive s (destination_sensitive_key r.type r.name)
          (rw ((string_eq.same_iff r.sensitive_config_version "").1 v) refl) (λ p. cc (sym v ∙ p)) e
    Triple-get_sensitive s (versioned n f e) =
        Triple-read_sensitive s
          (destination_sensitive_version_key r.type r.name r.sensitive_config_version)
          (elim (Bool-cases (r.sensitive_config_version == "")) [
            | inl p ↦ absurd (f ((string_eq.same_iff r.sensitive_config_version "").0 p))
            | inr p ↦ rw p refl
          ])
          n e

  in_force-entry_at :
      (r : DestinationRecord) (s : Option DestinationSensitiveRecord) (key : String)
      → SensitiveNamesOnce s
      → entry_at key (option s r.config (λ x. override_entries x.config r.config))
        ≡ in_force r s key
  in_force-entry_at r none key once = refl
  in_force-entry_at r (some s) key once = entry_at-override_entries key s.config r.config once

  -- If the sensitive configuration of a destination, by the version that its record names, is `s`, in
  -- which no key stands twice, then a read of the destination's configuration fails only where a read of
  -- the storage does, and when it returns it gives, at every key, the value of the sensitive configuration
  -- if it has one, and that of the record if not.
  pub destination_config-in_force :
      (r : DestinationRecord) (s : Option DestinationSensitiveRecord)
      → SensitiveNamesOnce s
      → Triple
          (SensitiveStands r s)
          (destination_config r)
          (λ config c. (key : String) → entry_at key config ≡ in_force r s key)
          (ReadFails env)
  unfolding destination_config
  destination_config-in_force r s once = Triple-start _ λ c h.
      Triple-bind (λ o d. (d ≡ c) × (o ≡ s)) _ _
        (Triple-weaken {E' = ReadFails env} _ (Triple-get_sensitive r c s h) (λ d p. p) (λ o d p. p)
          (λ d p. p.1))
        λ o. Triple-given (o ≡ s) _ λ same. Triple-pure _ λ d _ key.
          ap (λ x. entry_at key (option x r.config (λ y. override_entries y.config r.config))) same
          ∙ in_force-entry_at r s key once
