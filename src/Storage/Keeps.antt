-- ===== src/Storage/Keeps.antt =====
-- What an action keeps of the stored contents, whether it returns or fails: one rule for each way
-- to build an action.
use openbao_plugin_secrets_s.Prelude.{
  ◌≡◌, sym, subst, inl, inr, Bool, true, false, Option, none, some, String, if◌then◌else◌,
}
use openbao_plugin_secrets_s.Storage.{
  Key, Value, Contents, update, Prefix, Error, Result, ok, err, left, Reads, Writes, Env, M, ◌>>=◌,
  pure, throw, catch, option, get_entry, put_entry, delete_entry, now_utc,
}

-- `m` keeps `I`, whatever it returns and wherever the storage fails.
pub record Keeps ⦃env : Env⦄ {A : Type 0} (I : Contents → Type 0) (m : M A) : Type 0 where
  pub at : (s : env.State) → I (env.contents s) → I (env.contents (left (m s)))

module _ ⦃env : Env⦄ {A : Type 0} where
  read_keeps :
      (I : Contents → Type 0) (P : A → Type 0) (c : Contents) (r : Result env.State A)
      → Reads env.contents c P r
      → I c
      → I (env.contents (left r))
  read_keeps I P c (ok a t) h i = subst I (sym h.1) i
  read_keeps I P c (err e t) h i = subst I (sym h) i

module _ ⦃env : Env⦄ where
  write_keeps :
      (I : Contents → Type 0) (c d : Contents) (r : Result env.State (Unit {0}))
      → Writes env.contents c d r
      → I c
      → I d
      → I (env.contents (left r))
  write_keeps I c d (ok _ t) h i j = subst I (sym h) j
  write_keeps I c d (err e t) (inl h) i j = subst I (sym h) i
  write_keeps I c d (err e t) (inr h) i j = subst I (sym h) j

module _ ⦃env : Env⦄ {A : Type 0} {I : Contents → Type 0} where
  pub Keeps-pure : (a : A) → Keeps I (pure a)
  Keeps-pure a = record { at = λ s h. h }

  pub Keeps-throw : (e : Error) → Keeps {A = A} I (throw e)
  Keeps-throw e = record { at = λ s h. h }

  pub Keeps-if :
      (b : Bool) (m n : M A)
      → (b ≡ true → Keeps I m)
      → (b ≡ false → Keeps I n)
      → Keeps I (if b then m else n)
  Keeps-if true m n km kn = km (λ i. true)
  Keeps-if false m n km kn = kn (λ i. false)

  pub Keeps-option :
      {B : Type 0} (o : Option B) (m : M A) (f : B → M A)
      → Keeps I m
      → ((b : B) → Keeps I (f b))
      → Keeps I (option o m f)
  Keeps-option none m f km kf = km
  Keeps-option (some b) m f km kf = kf b

  pub Keeps-found :
      {B : Type 0} (o : Option B) (m : M A) (f : B → M A)
      → Keeps I m
      → ((b : B) → o ≡ some b → Keeps I (f b))
      → Keeps I (option o m f)
  Keeps-found none m f km kf = km
  Keeps-found (some b) m f km kf = kf b (λ i. some b)

module _ ⦃env : Env⦄ {A B : Type 0} {I : Contents → Type 0} where
  bind_result :
      (r : Result env.State A) (f : A → M B)
      → ((a : A) → Keeps I (f a))
      → I (env.contents (left r))
      → (m : M A) (s : env.State) → m s ≡ r
      → I (env.contents (left ((m >>= f) s)))
  unfolding ◌>>=◌
  bind_result (ok a t) f kf h m s e = rw (e, ◌>>=◌) ((kf a).at t h)
  bind_result (err x t) f kf h m s e = rw (e, ◌>>=◌) h

  pub Keeps-bind :
      (m : M A) (f : A → M B) → Keeps I m → ((a : A) → Keeps I (f a)) → Keeps I (m >>= f)
  Keeps-bind m f km kf = record { at = λ s h. bind_result (m s) f kf (km.at s h) m s (λ i. m s) }

module _ ⦃env : Env⦄ {A : Type 0} {I : Contents → Type 0} where
  catch_result :
      (r : Result env.State A) (h : Error → M A)
      → ((e : Error) → Keeps I (h e))
      → I (env.contents (left r))
      → (m : M A) (s : env.State) → m s ≡ r
      → I (env.contents (left (catch m h s)))
  unfolding catch
  catch_result (ok a t) h kh i m s e = rw (e, catch) i
  catch_result (err x t) h kh i m s e = rw (e, catch) ((kh x).at t i)

  pub Keeps-catch :
      (m : M A) (h : Error → M A) → Keeps I m → ((e : Error) → Keeps I (h e)) → Keeps I (catch m h)
  Keeps-catch m h km kh = record { at = λ s i. catch_result (m s) h kh (km.at s i) m s (λ j. m s) }

module _ ⦃env : Env⦄ {I : Contents → Type 0} where
  pub Keeps-get : (k : Key) → Keeps I (get_entry k)
  Keeps-get k = record { at = λ s h. read_keeps I _ _ (env.get k s) (env.get_lem k s) h }

  pub Keeps-list : (p : Prefix) → Keeps I (env.list p)
  Keeps-list p = record { at = λ s h. read_keeps I _ _ (env.list p s) (env.list_lem p s) h }

  pub Keeps-list_versions : (p : String) → Keeps I (env.list_versions p)
  Keeps-list_versions p = record {
    at = λ s h. read_keeps I _ _ (env.list_versions p s) (env.list_versions_lem p s) h;
  }

  pub Keeps-list_status_keys : (p : String) → Keeps I (env.list_status_keys p)
  Keeps-list_status_keys p = record {
    at = λ s h. read_keeps I _ _ (env.list_status_keys p s) (env.list_status_keys_lem p s) h;
  }

  pub Keeps-collect_due : Keeps I env.collect_due
  Keeps-collect_due = record {
    at = λ s h. read_keeps I _ _ (env.collect_due s) (env.collect_due_lem s) h;
  }

  pub Keeps-collect_intents : Keeps I env.collect_intents
  Keeps-collect_intents = record {
    at = λ s h. read_keeps I _ _ (env.collect_intents s) (env.collect_intents_lem s) h;
  }

  pub Keeps-collect_associations : Keeps I env.collect_associations
  Keeps-collect_associations = record {
    at = λ s h. read_keeps I _ _ (env.collect_associations s) (env.collect_associations_lem s) h;
  }

  pub Keeps-now : Keeps I now_utc
  Keeps-now = record { at = λ s h. read_keeps I _ _ (env.now_utc s) (env.now_utc_lem s) h }

  pub Keeps-random : Keeps I env.random_id
  Keeps-random = record { at = λ s h. read_keeps I _ _ (env.random_id s) (env.random_id_lem s) h }

  pub Keeps-put :
      (k : Key) (v : Value)
      → ((c : Contents) → I c → I (update c k (some v)))
      → Keeps I (put_entry k v)
  Keeps-put k v step = record {
    at = λ s h. write_keeps I _ _ (env.put k v s) (env.put_lem k v s) h (step (env.contents s) h);
  }

  pub Keeps-delete :
      (k : Key) → ((c : Contents) → I c → I (update c k none)) → Keeps I (delete_entry k)
  Keeps-delete k step = record {
    at = λ s h. write_keeps I _ _ (env.remove k s) (env.remove_lem k s) h (step (env.contents s) h);
  }

pub ruleset keeps_rules = (
  Keeps-pure, Keeps-throw, Keeps-if, Keeps-option, Keeps-bind, Keeps-get, Keeps-list,
  Keeps-list_versions, Keeps-list_status_keys, Keeps-collect_due, Keeps-collect_intents,
  Keeps-collect_associations, Keeps-now, Keeps-random,
)
