-- ===== src/Deletion/Destroyed.antt =====
-- Changes of versions and the versions that are destroyed (path_versions.go).
use openbao_plugin_secrets_s.Prelude.{
  ℕ, ◌≡◌, refl, sym, subst, ap, ◌∙◌, true, false, [], Option, none, some, String, arith,
}
use openbao_plugin_secrets_s.Records.{Stamp, VersionRecord, MetadataRecord}
use openbao_plugin_secrets_s.Storage.{
  Key-discrete, version_key, version_value, Value, Contents, update, Env, M, ◌>>=◌, ◌>>◌, pure,
  option,
}
use openbao_plugin_secrets_s.Storage.Triples.{
  Triple, Triple-bind, Triple-pure, Triple-if, Triple-weaken, update_same, update_other,
}
use openbao_plugin_secrets_s.Storage.Reading.{Found}
use openbao_plugin_secrets_s.Source.{put_version, get_version}
use openbao_plugin_secrets_s.Source.Reads.{Triple-get_version, Triple-put_version}
use openbao_plugin_secrets_s.Enqueue.{unavailable_version}
use openbao_plugin_secrets_s.Deletion.{
  VersionMutationKind, mutation_delete, mutation_undelete, mutation_destroy, soft_delete_version,
  undelete_version, destroy_version, delete_available, undelete_kept, destroy_kept, mutate,
  deleted_at, undeleted, destroyed_version,
}

-- Every stored version stands at its own number.
abbrev pub WellNumbered : Contents → Type 0
WellNumbered c =
    (p : String) (n : ℕ) (v : VersionRecord)
    → c (version_key p n) ≡ some (version_value v)
    → v.version ≡ n

abbrev pub IsDestroyed : Option Value → Type 0
IsDestroyed (some (version_value v)) = (v.destroyed ≡ true) × (v.payload ≡ [])
IsDestroyed _ = ⊥

-- The version is stored, marked as destroyed, and without its payload.
abbrev pub Destroyed : String → ℕ → Contents → Type 0
Destroyed p n c = WellNumbered c × IsDestroyed (c (version_key p n))

-- A version replaced under its own number.
pub replace-WellNumbered :
    (c : Contents) (path : String) (w : VersionRecord)
    → WellNumbered c
    → WellNumbered (update c (version_key path w.version) (some (version_value w)))
replace-WellNumbered c path w h p n v e =
    elim (Key-discrete (version_key path w.version) (version_key p n)) [
      | yes q ↦
          let at_key = ap (update c (version_key path w.version) (some (version_value w))) q in
          let same : w ≡ v =
            cc (e, at_key, update_same c (version_key path w.version) (some (version_value w))) in
          cc (ap (λ (x : VersionRecord). x.version) same, q)
      | no f ↦ h p n v (
          sym (
            update_other c (version_key path w.version) (version_key p n) (some (version_value w))
              f)
          ∙ e)
    ]

not_destroyed : (v : VersionRecord) → v.destroyed ≡ false → ¬ IsDestroyed (some (version_value v))
not_destroyed v e d = cc (e, d.0)

replace-Destroyed :
    (c : Contents) (p path : String) (n : ℕ) (v w : VersionRecord)
    → Destroyed p n c
    → c (version_key path v.version) ≡ some (version_value v)
    → v.destroyed ≡ false
    → w.version ≡ v.version
    → Destroyed p n (update c (version_key path w.version) (some (version_value w)))
replace-Destroyed c p path n v w (h, d) stored live same =
    let at : version_key path w.version ≡ version_key path v.version = ap (version_key path) same in
    (
      replace-WellNumbered c path w h,
      subst IsDestroyed
          (sym (
            update_other c (version_key path w.version) (version_key p n) (some (version_value w))
              (λ q. not_destroyed v live (subst IsDestroyed (ap c (sym q ∙ at) ∙ stored) d))))
          d,
    )

available_live : (v : VersionRecord) → unavailable_version v ≡ false → v.destroyed ≡ false
available_live v e = ground arith

module _ ⦃env : Env⦄ (p : String) (n : ℕ) where
  -- The version that was read stands at its own number.
  abbrev Read : String → VersionRecord → Contents → Type 0
  Read path v c = Destroyed p n c × (c (version_key path v.version) ≡ some (version_value v))

  Read-of_Found :
      (path : String) (k : ℕ) (v : VersionRecord) (c : Contents)
      → Destroyed p n c
      → Found version_value (λ r. r) (version_key path k) (some v) c
      → Read path v c
  Read-of_Found path k v c d (x, e, q) =
      let stored : c (version_key path k) ≡ some (version_value v) =
        q ∙ ap (λ w. some (version_value w)) (sym e) in
      (d, ap (λ j. c (version_key path j)) (d.0 path k v stored) ∙ stored)

  Triple-replace :
      (path : String) (v w : VersionRecord) (m : MetadataRecord)
      → v.destroyed ≡ false
      → w.version ≡ v.version
      → Triple (Read path v) (do put_version path w; pure m) (λ _. Destroyed p n) (Destroyed p n)
  Triple-replace path v w m live same =
      Triple-bind (λ _. Destroyed p n) _ _
        (Triple-put_version path w (Destroyed p n) (Destroyed p n)
          λ c h. let next = replace-Destroyed c p path n v w h.0 h.1 live same in (next, h.0, next))
        λ _. Triple-pure m (λ c h. h)

  -- A change of the version that is read, if there is one.
  Triple-change :
      (path : String) (k : ℕ) (m : MetadataRecord) (change : VersionRecord → M MetadataRecord)
      → ((v : VersionRecord) → Triple (Read path v) (change v) (λ _. Destroyed p n) (Destroyed p n))
      → Triple
          (Destroyed p n)
          (do r ← get_version path k; option r (pure m) change)
          (λ _. Destroyed p n)
          (Destroyed p n)
  Triple-change path k m change t =
      Triple-bind _ _ _ (Triple-get_version (Destroyed p n) path k) λ o. changed o
    where
      changed :
          (o : Option VersionRecord)
          → Triple
              (λ c. Destroyed p n c × Found version_value (λ r. r) (version_key path k) o c)
              (option o (pure m) change)
              (λ _. Destroyed p n)
              (Destroyed p n)
      changed none = Triple-pure m (λ c h. h.0)
      changed (some v) =
          Triple-weaken _ (t v) (λ c h. Read-of_Found path k v c h.0 h.1) (λ _ c h. h) (λ c h. h)

  pub mutate-Destroyed :
      (kind : VersionMutationKind) (m : MetadataRecord) (path : String) (version : ℕ) (now : Stamp)
      → Triple (Destroyed p n) (mutate kind m path version now) (λ _. Destroyed p n) (Destroyed p n)
  unfolding mutate soft_delete_version undelete_version destroy_version delete_available
      undelete_kept destroy_kept
  mutate-Destroyed mutation_delete m path version now = Triple-change path version m _ λ v.
      Triple-if (unavailable_version v) _ _ (λ _. Triple-pure m (λ c h. h.0))
        λ e. Triple-replace path v (deleted_at now v) _ (available_live v e) refl
  mutate-Destroyed mutation_undelete m path version now = Triple-change path version m _ λ v.
      Triple-if v.destroyed _ _ (λ _. Triple-pure m (λ c h. h.0))
        λ e. Triple-replace path v (undeleted v) _ e refl
  mutate-Destroyed mutation_destroy m path version now = Triple-change path version m _ λ v.
      Triple-if v.destroyed _ _ (λ _. Triple-pure m (λ c h. h.0))
        λ e. Triple-replace path v (destroyed_version v) _ e refl
