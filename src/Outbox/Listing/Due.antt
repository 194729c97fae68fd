-- ===== src/Outbox/Listing/Due.antt =====
-- The listing of due operations of storage_outbox.go.
use openbao_plugin_secrets_s.Prelude.{
  ℕ, ◌≤◌, ◌≡◌, ◌≢◌, ◌↔◌, ◌/◌, refl, sym, subst, ap, ◌∙◌, inl, inr, Bool, true, false, List, [], ◌∷◌,
  Option, none, some, String, In, All, arith, if◌then◌else◌, ltb, ◌==◌, string_eq, nat_eq,
  Bool-cases, All-In, eq_self, ltb→lt,
}
use openbao_plugin_secrets_s.Records.{second, OutboxRecord}
use openbao_plugin_secrets_s.Storage.{
  outbox_key, outbox_value, outbox_by_due_key, Contents, Env, IsStored, Reads, Result, ok, err,
}
use openbao_plugin_secrets_s.Storage.Keeps.{Keeps, Keeps-bind, Keeps-if, Keeps-pure}
use openbao_plugin_secrets_s.Storage.Triples.{
  Ends, Triple, Triple-bind, Triple-pure, Triple-if, Triple-then, Triple-weaken, Triple-given,
}
use openbao_plugin_secrets_s.Storage.Reading.{Found}
use openbao_plugin_secrets_s.Outbox.Records.{
  get_outbox, outbox_due_index_time, normalize_outbox_defaults,
}
use openbao_plugin_secrets_s.Outbox.Records.Frame.{Keeps-get_outbox}
use openbao_plugin_secrets_s.Outbox.Records.Reads.{Triple-get_outbox}
use openbao_plugin_secrets_s.Outbox.Records.Indexed.{Indexed, due_key-In}
use openbao_plugin_secrets_s.Outbox.Listing.{
  holds, sort_by, insert_sorted, due_before, due_ids, is_indexed_at, list_due_outbox_ids,
}
use openbao_plugin_secrets_s.Outbox.Listing.Sorting.{In-sorted}

-- The times do not decrease.
abbrev Ascending : List (ℕ × String) → Type 0
Ascending [] = Unit
Ascending (k ∷ ks) = All (λ (j : ℕ × String). k.0 ≤ j.0) ks × Ascending ks

All-insert_due :
    (n : ℕ) (a : ℕ × String) (ks : List (ℕ × String))
    → n ≤ a.0
    → All (λ (j : ℕ × String). n ≤ j.0) ks
    → All (λ (j : ℕ × String). n ≤ j.0) (insert_sorted due_before a ks)
unfolding insert_sorted
All-insert_due n a [] h t = (h, tt)
All-insert_due n a (k ∷ ks) h t = elim (Bool-cases (due_before k a)) [
  | inl e ↦ rw e (t.0, All-insert_due n a ks h t.1)
  | inr e ↦ rw e (h, t)
]

before_le : (a b : ℕ × String) → due_before a b ≡ true → a.0 ≤ b.0
before_le (d, i) (e, j) h = ground arith

not_before_le : (a b : ℕ × String) → due_before a b ≡ false → b.0 ≤ a.0
not_before_le (d, i) (e, j) h = ground arith

All-later :
    (n m : ℕ) (ks : List (ℕ × String))
    → n ≤ m
    → All (λ (j : ℕ × String). m ≤ j.0) ks
    → All (λ (j : ℕ × String). n ≤ j.0) ks
All-later n m [] h t = tt
All-later n m (k ∷ ks) h t = (omega (arith, h, t.0), All-later n m ks h t.1)

insert_due-Ascending :
    (a : ℕ × String) (ks : List (ℕ × String))
    → Ascending ks
    → Ascending (insert_sorted due_before a ks)
unfolding insert_sorted
insert_due-Ascending a [] h = (tt, tt)
insert_due-Ascending a (k ∷ ks) h = elim (Bool-cases (due_before k a)) [
  | inl e ↦ rw e (All-insert_due k.0 a ks (before_le k a e) h.0, insert_due-Ascending a ks h.1)
  | inr e ↦ let le = not_before_le k a e in rw e ((le, All-later a.0 k.0 ks le h.0), h)
]

sort_due-Ascending : (ks : List (ℕ × String)) → Ascending (sort_by due_before ks)
unfolding sort_by
sort_due-Ascending [] = tt
sort_due-Ascending (k ∷ ks) = insert_due-Ascending k _ (sort_due-Ascending ks)

head_first :
    (k j : ℕ × String) (ks : List (ℕ × String)) → Ascending (k ∷ ks) → In j (k ∷ ks) → k.0 ≤ j.0
head_first k j ks h (inl e) = omega (arith, ap (λ (x : ℕ × String). x.0) e)
head_first k j ks h (inr m) = All-In _ ks j h.0 m

module _ ⦃env : Env⦄ where
  Keeps-due_ids :
      (I : Contents → Type 0) (now : ℕ) (ks : List (ℕ × String)) → Keeps I (due_ids now ks)
  unfolding due_ids
  Keeps-due_ids I now [] = Keeps-pure []
  Keeps-due_ids I now ((e, id) ∷ ks) =
      Keeps-if (id == "") _ _ (λ _. Keeps-due_ids I now ks)
        λ _.
          Keeps-if (ltb (now / second) e) _ _ (λ _. Keeps-pure [])
            λ _.
              Keeps-bind _ _ (Keeps-get_outbox id)
                λ o. Keeps-bind _ _ (Keeps-due_ids I now ks) λ rest. Keeps-pure _

  keys_of_read :
      (I : Contents → Type 0) (c : Contents) (a : Result env.State (List (ℕ × String)))
      → Reads env.contents c
          (λ ks. (d : ℕ) (id : String) → In (d, id) ks ↔ IsStored c (outbox_by_due_key d id))
          a
      → I c
      → Ends
          (λ ks t.
            I t × ((d : ℕ) (id : String) → In (d, id) ks ↔ IsStored t (outbox_by_due_key d id)))
          I
          a
  keys_of_read I c (ok ks t) h i =
      subst
        (λ d. I d × ((n : ℕ) (id : String) → In (n, id) ks ↔ IsStored d (outbox_by_due_key n id)))
        (sym h.1) (i, h.0)
  keys_of_read I c (err e t) h i = subst I (sym h) i

  Triple-collect_due :
      (I : Contents → Type 0)
      → Triple I env.collect_due
          (λ ks c.
            I c × ((d : ℕ) (id : String) → In (d, id) ks ↔ IsStored c (outbox_by_due_key d id)))
          I
  Triple-collect_due I = record {
    run = λ s h. keys_of_read I (env.contents s) (env.collect_due s) (env.collect_due_lem s) h;
  }

pub kept-In :
    (b : Bool) (i id : String) (ids : List String) → In i ids → In i (if b then id ∷ ids else ids)
kept-In true i id ids m = inr m
kept-In false i id ids m = m

pub taken-In :
    (b : Bool) (i id : String) (ids : List String)
    → b ≡ true
    → id ≡ i
    → In i (if b then id ∷ ids else ids)
taken-In true i id ids h e = inl e
taken-In false i id ids h e = cc h

same_due_time :
    (r : OutboxRecord)
    → outbox_due_index_time (normalize_outbox_defaults r) ≡ outbox_due_index_time r
unfolding outbox_due_index_time
same_due_time r = refl

module _ ⦃env : Env⦄ (r : OutboxRecord) (now d : ℕ) (time : outbox_due_index_time r ≡ some d)
    (due : d ≤ now / second) (named : r.id ≢ "") where
  abbrev Stored : Contents → Type 0
  Stored c = c (outbox_key r.id) ≡ some (outbox_value r)

  is_indexed_at-Found :
      (o : Option OutboxRecord) (c : Contents)
      → Stored c
      → Found outbox_value normalize_outbox_defaults (outbox_key r.id) o c
      → holds (is_indexed_at d) o ≡ true
  is_indexed_at-Found none c s f = cc (s, f)
  is_indexed_at-Found (some x) c s (y, p, q) =
      let same : y ≡ r = cc (s, q) in
      let at =
        ap outbox_due_index_time p ∙ (same_due_time y ∙ (ap outbox_due_index_time same ∙ time)) in
      rw at (eq_self d)

  -- The read of the operation itself.
  read_own :
      (id : String)
      → id ≡ r.id
      → Triple Stored
          (get_outbox id)
          (λ o c. Stored c × (holds (is_indexed_at d) o ≡ true))
          (λ _. Unit {0})
  read_own id e =
      Triple-weaken _ (Triple-get_outbox Stored id) (λ c h. h)
        (λ o c h. (
          h.0,
          is_indexed_at-Found o c h.0
              (subst (λ i. Found outbox_value normalize_outbox_defaults (outbox_key i) o c) e h.1),
        ))
        (λ c h. tt)

  not_blank :
      (id : String) (e : ℕ) (ks : List (ℕ × String))
      → In (d, r.id) ((e, id) ∷ ks)
      → (id == "") ≡ true
      → In (d, r.id) ks
  not_blank id e ks (inl p) b =
      absurd (named (sym (ap (λ (k : ℕ × String). k.1) p) ∙ (string_eq.same_iff id "").0 b))
  not_blank id e ks (inr m) b = m

  due_ids-finds :
      (ks : List (ℕ × String))
      → Ascending ks
      → In (d, r.id) ks
      → Triple Stored (due_ids now ks) (λ ids c. In r.id ids) (λ _. Unit {0})
  unfolding due_ids
  due_ids-finds [] h m = absurd m
  due_ids-finds ((e, id) ∷ ks) h m =
      let first = head_first (e, id) (d, r.id) ks h m in
      Triple-if (id == "") _ _ (λ blank_id. due_ids-finds ks h.1 (not_blank id e ks m blank_id))
        λ _.
          Triple-if (ltb (now / second) e) _ _ (λ late. omega (arith, first, due, ltb→lt _ _ late))
            λ _. elim m [
              | inl p ↦
                  let own : id ≡ r.id = ap (λ (k : ℕ × String). k.1) p in
                  let at : e ≡ d = ap (λ (k : ℕ × String). k.0) p in
                  Triple-bind _ _ _ (read_own id own) λ o.
                    Triple-given (holds (is_indexed_at d) o ≡ true) _ λ indexed.
                      Triple-then _ _ (Keeps-due_ids Stored now ks) (λ c s. tt)
                        λ rest. Triple-pure _ λ c s.
                          taken-In (holds (is_indexed_at e) o) r.id id rest
                            (ap (λ n. holds (is_indexed_at n) o) at ∙ indexed) own
              | inr n ↦
                  Triple-then _ _ (Keeps-get_outbox id) (λ c s. tt)
                    λ o. Triple-bind _ _ _ (due_ids-finds ks h.1 n) λ rest.
                      Triple-pure _
                        λ c found. kept-In (holds (is_indexed_at e) o) r.id id rest found
            ]

  In-keys :
      (ks : List (ℕ × String)) (c : Contents)
      → Indexed c
      → Stored c
      → ((n : ℕ) (id : String) → In (n, id) ks ↔ IsStored c (outbox_by_due_key n id))
      → In (d, r.id) ks
  In-keys ks c h s spec =
      (spec d r.id).1 (All-In (IsStored c) _ _ (h r.id r s).1 (due_key-In r d time))

  -- If every stored operation is in its indexes, then the listing of due operations, when it returns,
  -- lists every stored operation with an identity that waits in the queue and whose time has come.
  pub list_due_outbox_ids_complete :
      Triple
        (λ c. Indexed c × (c (outbox_key r.id) ≡ some (outbox_value r)))
        (list_due_outbox_ids now)
        (λ ids c. In r.id ids)
        (λ c. Unit {0})
  unfolding list_due_outbox_ids
  list_due_outbox_ids_complete =
      Triple-bind (λ ks c. Stored c × In (d, r.id) ks) _ _
        (Triple-weaken _ (Triple-collect_due (λ c. Indexed c × Stored c)) (λ c h. h)
          (λ ks c h. (h.0.1, In-keys ks c h.0.0 h.0.1 h.1)) (λ c h. tt))
        λ ks. Triple-given (In (d, r.id) ks) _ λ m.
          due_ids-finds (sort_by due_before ks) (sort_due-Ascending ks)
            (In-sorted due_before (d, r.id) ks m)
