-- ===== src/Destinations/Atomicity.antt =====
-- A write of a destination replaces its record and its sensitive configuration together
-- (path_destinations.go, storage_destination.go).
use openbao_plugin_secrets_s.Prelude.{
  ◌≡◌, refl, sym, ap, subst, ◌∙◌, ◌⊎◌, inl, inr, List, [], ◌∷◌, Option, none, some, String, ◌==◌,
  if◌then◌else◌, string_eq,
}
use openbao_plugin_secrets_s.Records.{
  Stamp, is_blank, DestinationRecord, DestinationSensitiveRecord,
}
use openbao_plugin_secrets_s.Storage.{
  Key, destination_key, Value, sensitive_value, Contents, update, Error, Result, ok, err, Env, M,
  pure, Writes, put_entry,
}
use openbao_plugin_secrets_s.Storage.Triples.{
  Triple, Triple-bind, Triple-pure, Triple-throw, Triple-if, Triple-catch, Triple-weaken,
  Triple-put, Triple-delete, Triple-start, Triple-given, Ends, update_same, update_other,
}
use openbao_plugin_secrets_s.Associations.{sensitive_key_of}
use openbao_plugin_secrets_s.RuntimeState.{new_runtime_id}
use openbao_plugin_secrets_s.Destinations.{
  put_destination, put_destination_sensitive_config, delete_destination_sensitive_config_version,
  store_with_version, store_destination_write,
}
use openbao_plugin_secrets_s.Associations.StoredConfig.{
  stored_config, Replaces, sensitive_key-ne, sensitive_key-ne-destination_key, Old, New, Written,
  Old-config, New-config, New-config_none, Configured, Replaced,
}

-- A write that fails is not applied.
abbrev pub PutsAtomically : Env → Type 0
PutsAtomically env =
    (k : Key) (v : Value) (s t : env.State) (e : Error)
    → env.put k v s ≡ err e t
    → env.contents t ≡ env.contents s

abbrev pub IsOther : String → String → Type 0
IsOther version v = ¬ (v ≡ version) × ¬ (v ≡ "none") × ¬ (v ≡ "")

-- The random part of a new version makes it another than the version in use.
abbrev pub DrawsOther : Env → String → Type 1
DrawsOther env version =
    (P : Contents → Type 0)
    → Triple ⦃env = env⦄ P (new_runtime_id ⦃env = env⦄ "destination-sensitive")
        (λ v c. P c × IsOther version v) P

module _ ⦃env : Env⦄ where
  put-Ends :
      (P Q : Contents → Type 0) (c d : Contents) (r : Result env.State (Unit {0}))
      → Writes env.contents c d r
      → ((e : Error) (t : env.State) → r ≡ err e t → env.contents t ≡ c)
      → P c
      → Q d
      → Ends (λ _. Q) P r
  put-Ends P Q c d (ok _ t) w u p q = subst Q (sym w) q
  put-Ends P Q c d (err e t) w u p q = subst P (sym (u e t refl)) p

  Triple-put_atomic :
      (P Q : Contents → Type 0) (k : Key) (v : Value)
      → PutsAtomically env
      → ((c : Contents) → P c → Q (update c k (some v)))
      → Triple P (put_entry k v) (λ _. Q) P
  Triple-put_atomic P Q k v atomic f = record {
    run = λ s p.
        put-Ends P Q _ _ (env.put k v s) (env.put_lem k v s) (λ e t. atomic k v s t e) p (f _ p);
  }

module _ (r : DestinationRecord) (d s : Option Value) where
  module _ ⦃env : Env⦄ (atomic : PutsAtomically env) (F : Contents → Type 0)
      (F-record : (c : Contents) (v : Value)
        → F c
        → F (update c (destination_key r.type r.name) (some v)))
      (F-old : (c : Contents)
        → F c
        → F (update c (sensitive_key_of r.type r.name r.sensitive_config_version) none)) where
    Triple-delete_old :
        (version : String)
        → Triple
            (λ c. New r d s version c × F c)
            (delete_destination_sensitive_config_version r.type r.name r.sensitive_config_version)
            (λ _ c. New r d s version c × F c)
            (λ c. New r d s version c × F c)
    unfolding delete_destination_sensitive_config_version
    Triple-delete_old version =
        Triple-if (r.sensitive_config_version == "none") _ _ (λ _. Triple-pure tt (λ c h. h))
          λ _.
            let kept : (c : Contents)
                → New r d s version c × F c
                → New r d s version
                    (update c (sensitive_key_of r.type r.name r.sensitive_config_version) none)
                  × F (update c (sensitive_key_of r.type r.name r.sensitive_config_version) none) =
              λ c h. (
                update_other c _ _ none
                      (sensitive_key-ne-destination_key r.type r.name r.sensitive_config_version)
                    ∙ h.0,
                F-old c h.1,
              ) in
            Triple-delete _ _ _ (λ c h. (kept c h, h, kept c h))

    Triple-store_with_version :
        (version : String) (undo : String → M (Unit {0}))
        → Triple (λ c. Old r d s c × F c) (undo version) (λ _. Old r d s) (Old r d s)
        → Triple
            (λ c. Old r d s c × F c)
            (store_with_version r version undo)
            (λ _ c. New r d s version c × F c)
            (λ c. Old r d s c ⊎ (New r d s version c × F c))
    unfolding store_with_version put_destination
    Triple-store_with_version version undo undone =
        Triple-bind (λ _ c. New r d s version c × F c) _ _
          (Triple-catch (λ c. Old r d s c × F c) _ _
            (Triple-put_atomic _ _ _ _ atomic (λ c h. (update_same c _ _, F-record c _ h.1)))
            λ e.
              Triple-bind (λ _. Old r d s) _ _
                (Triple-catch (Old r d s) _ _
                  (Triple-weaken (undo version) undone (λ c h. h) (λ _ c h. h) (λ c h. h))
                  λ _. Triple-pure tt (λ c h. h))
                λ _. Triple-throw e (λ c h. inl h))
          λ _. Triple-weaken _ (Triple-delete_old version) (λ c h. h) (λ _ c h. h) (λ c h. inr h)

abbrev sensitive_record :
    DestinationRecord → List (String × String) → Stamp → Stamp → DestinationSensitiveRecord
sensitive_record r config created now = record {
  type = r.type;
  name = r.name;
  config = config;
  created_time = if is_blank created then now else created;
  updated_time = now;
}

module _ ⦃env : Env⦄ (r : DestinationRecord) (before : Option (List (String × String)))
    (atomic : PutsAtomically env) (c : Contents) (start : Replaces r c)
    (config : Configured r before c) where
  abbrev d : Option Value
  d = c (destination_key r.type r.name)

  abbrev s : Option Value
  s = c (sensitive_key_of r.type r.name r.sensitive_config_version)

  store_plain :
      Triple
        (λ e. e ≡ c)
        (store_with_version r "none" (λ _. pure tt))
        (λ _. Replaced r [])
        (λ e. Configured r before e ⊎ Replaced r [] e)
  store_plain =
      Triple-weaken {E' = λ e. Configured r before e ⊎ Replaced r [] e} _
        (Triple-store_with_version r d s atomic (λ _. Unit {0}) (λ _ _ _. tt) (λ _ _. tt) "none"
          (λ _. pure tt) (Triple-pure tt (λ _ p. p.0)))
        (λ e p. (
          (
            ap (λ x. x (destination_key r.type r.name)) p,
            ap (λ x. x (sensitive_key_of r.type r.name r.sensitive_config_version)) p,
          ),
          tt,
        ))
        (λ _ e p. New-config_none r e p.0)
        (λ e p. elim p [
          | inl old ↦ inl (Old-config r c e start old ∙ config)
          | inr new ↦ inr (New-config_none r e new.0)
        ])

  module _ (w : DestinationSensitiveRecord) (version : String)
      (other : ¬ (version ≡ r.sensitive_config_version)) (named : ¬ (version ≡ "none"))
      (filled : ¬ (version ≡ "")) where
    store_versioned :
        Triple
          (λ e. Old r d s e × Written r w version e)
          (store_with_version r version
            (λ v. delete_destination_sensitive_config_version r.type r.name v))
          (λ _. Replaced r w.config)
          (λ e. Configured r before e ⊎ Replaced r w.config e)
    unfolding delete_destination_sensitive_config_version
    store_versioned =
        let apart =
          sensitive_key-ne r.type r.name version r.sensitive_config_version filled other in
        let undo : (e : Contents)
            → Old r d s e
            → Old r d s (update e (sensitive_key_of r.type r.name version) none) =
          λ e h. (
            update_other e _ _ none (sensitive_key-ne-destination_key r.type r.name version) ∙ h.0,
            update_other e _ _ none apart ∙ h.1,
          ) in
        Triple-weaken {E' = λ e. Configured r before e ⊎ Replaced r w.config e} _
          (Triple-store_with_version r d s atomic (Written r w version)
            (λ e v h.
              update_other e _ _ (some v)
                (λ p. sensitive_key-ne-destination_key r.type r.name version (sym p))
              ∙ h)
            (λ e h. update_other e _ _ none (λ p. apart (sym p)) ∙ h) version
            (λ v. delete_destination_sensitive_config_version r.type r.name v)
            (Triple-if (version == "none") _ _ (λ _. Triple-pure tt (λ e h. h.0))
              λ _. Triple-delete _ _ _ (λ e h. (undo e h.0, h.0, undo e h.0))))
          (λ e h. h) (λ _ e h. New-config r w version e named h.0 h.1)
          (λ e p. elim p [
            | inl old ↦ inl (Old-config r c e start old ∙ config)
            | inr new ↦ inr (New-config r w version e named new.0 new.1)
          ])

  store_sensitive :
      (x : String × String) (xs : List (String × String)) (created now : Stamp)
      → DrawsOther env r.sensitive_config_version
      → Triple
          (λ e. e ≡ c)
          (store_destination_write r (x ∷ xs) created now)
          (λ _. Replaced r (x ∷ xs))
          (λ e. Configured r before e ⊎ Replaced r (x ∷ xs) e)
  unfolding store_destination_write put_destination_sensitive_config
  store_sensitive x xs created now draws =
      let still : (e : Contents) → e ≡ c → Configured r before e =
        λ e p. ap (λ y. stored_config r.type r.name y) p ∙ config in
      Triple-bind _ _ _
        (Triple-weaken {E' = λ e. Configured r before e ⊎ Replaced r (x ∷ xs) e}
          (new_runtime_id "destination-sensitive") (draws (λ e. e ≡ c)) (λ e p. p) (λ v e p. p)
          (λ e p. inl (still e p)))
        λ version. Triple-given (IsOther r.sensitive_config_version version) _ λ fresh.
          let w = sensitive_record r (x ∷ xs) created now in
          let key = sensitive_key_of r.type r.name version in
          let apart : (e : Contents) (j : Key)
              → ¬ (key ≡ j)
              → e ≡ c
              → update e key (some (sensitive_value w)) j ≡ c j =
            λ e j n p. update_other e key j (some (sensitive_value w)) n ∙ ap (λ y. y j) p in
          let old : (e : Contents) → e ≡ c → Old r d s (update e key (some (sensitive_value w))) =
            λ e p. (
              apart e _ (sensitive_key-ne-destination_key r.type r.name version) p,
              apart e _
                  (sensitive_key-ne r.type r.name version r.sensitive_config_version fresh.2
                    fresh.0)
                  p,
            ) in
          Triple-bind (λ _ e. Old r d s e × Written r w version e) _ _
            (Triple-put key (sensitive_value w) _ _ (λ e p. (
              (old e p, update_same e key (some (sensitive_value w))),
              inl (still e p),
              inl (
                  Old-config r c (update e key (some (sensitive_value w))) start (old e p)
                  ∙ config),
            )))
            λ _. store_versioned w version fresh.0 fresh.1 fresh.2

module _ ⦃env : Env⦄ where
  -- A write of a destination that returns has replaced its configuration, and wherever it stops the
  -- destination has its configuration as before or the new one, never a part of one.
  pub store_destination_write-Replaced :
      (r : DestinationRecord) (sensitive : List (String × String)) (created now : Stamp)
      (before : Option (List (String × String)))
      → PutsAtomically env
      → DrawsOther env r.sensitive_config_version
      → Triple
          (λ c. Replaces r c × Configured r before c)
          (store_destination_write r sensitive created now)
          (λ _. Replaced r sensitive)
          (λ c. Configured r before c ⊎ Replaced r sensitive c)
  unfolding store_destination_write
  store_destination_write-Replaced r [] created now before atomic draws =
      Triple-start _ λ c h. store_plain r before atomic c h.0 h.1
  store_destination_write-Replaced r (x ∷ xs) created now before atomic draws =
      Triple-start _ λ c h. store_sensitive r before atomic c h.0 h.1 x xs created now draws
