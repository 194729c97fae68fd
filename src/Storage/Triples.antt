-- ===== src/Storage/Triples.antt =====
-- Pre- and postconditions of actions over the stored contents, and the keys that an invariant
-- does not depend on.
use openbao_plugin_secrets_s.Prelude.{
  ◌≡◌, sym, subst, ap, ◌∙◌, ◌⊎◌, inl, inr, Bool, true, false, Option, none, some, if◌then◌else◌,
  to_bool,
}
use openbao_plugin_secrets_s.Storage.{
  Key, Key-discrete, Value, Contents, update, Error, Result, ok, err, left, Reads, Writes, Env, M,
  ◌>>=◌, pure, throw, catch, option, get_entry, put_entry, delete_entry,
}
use openbao_plugin_secrets_s.Storage.Keeps.{Keeps, Keeps-put, Keeps-delete}

-- The outcome of an action: `Q` of the value and the contents, or `E` of the contents.
abbrev pub Ends :
    ⦃env : Env⦄ {A : Type 0}
    → (A → Contents → Type 0)
    → (Contents → Type 0)
    → Result env.State A
    → Type 0
Ends ⦃env⦄ Q E (ok a t) = Q a (env.contents t)
Ends ⦃env⦄ Q E (err e t) = E (env.contents t)

pub record Triple ⦃env : Env⦄ {A : Type 0} (P : Contents → Type 0) (m : M A)
    (Q : A → Contents → Type 0) (E : Contents → Type 0) : Type 0 where
  pub run : (s : env.State) → P (env.contents s) → Ends Q E (m s)

module _ ⦃env : Env⦄ {A : Type 0} {P E : Contents → Type 0} {Q : A → Contents → Type 0} where
  pub Triple-pure : (a : A) → ((c : Contents) → P c → Q a c) → Triple P (pure a) Q E
  Triple-pure a f = record { run = λ s h. f _ h }

  pub Triple-never : (m : M A) → ((c : Contents) → P c → ⊥) → Triple P m Q E
  Triple-never m f = record { run = λ s h. absurd (f _ h) }

  -- A fact of the precondition that does not depend on the contents.
  pub Triple-given : (F : Type 0) (m : M A) → (F → Triple P m Q E) → Triple (λ c. P c × F) m Q E
  Triple-given F m t = record { run = λ s h. (t h.1).run s h.0 }

  -- A proof from the contents that the action starts from.
  pub Triple-start : (m : M A) → ((c : Contents) → P c → Triple (λ d. d ≡ c) m Q E) → Triple P m Q E
  Triple-start m f = record { run = λ s h. (f (env.contents s) h).run s (λ i. env.contents s) }

  pub Triple-throw : (e : Error) → ((c : Contents) → P c → E c) → Triple P (throw {A = A} e) Q E
  Triple-throw e f = record { run = λ s h. f _ h }

  pub Triple-if :
      (b : Bool) (m n : M A)
      → (b ≡ true → Triple P m Q E)
      → (b ≡ false → Triple P n Q E)
      → Triple P (if b then m else n) Q E
  Triple-if true m n tm tn = tm (λ i. true)
  Triple-if false m n tm tn = tn (λ i. false)

  pub Triple-option :
      {B : Type 0} (o : Option B) (m : M A) (f : B → M A)
      → (o ≡ none → Triple P m Q E)
      → ((b : B) → o ≡ some b → Triple P (f b) Q E)
      → Triple P (option o m f) Q E
  Triple-option none m f tm tf = tm (λ i. none)
  Triple-option (some b) m f tm tf = tf b (λ i. some b)

  Ends-of_left :
      (r : Result env.State A)
      → ((a : A) (c : Contents) → P c → Q a c)
      → ((c : Contents) → P c → E c)
      → P (env.contents (left r))
      → Ends Q E r
  Ends-of_left (ok a t) f g h = f a _ h
  Ends-of_left (err e t) f g h = g _ h

  -- An action that keeps its precondition.
  pub Triple-Keeps :
      (m : M A)
      → Keeps P m
      → ((a : A) (c : Contents) → P c → Q a c)
      → ((c : Contents) → P c → E c)
      → Triple P m Q E
  Triple-Keeps m k f g = record { run = λ s h. Ends-of_left (m s) f g (k.at s h) }

module _ ⦃env : Env⦄ {A B : Type 0} {E : Contents → Type 0} {R : B → Contents → Type 0} where
  bind-Ends :
      (Q : A → Contents → Type 0) (m : M A) (f : A → M B) (s : env.State) (r : Result env.State A)
      → m s ≡ r
      → Ends Q E r
      → ((a : A) → Triple (Q a) (f a) R E)
      → Ends R E ((m >>= f) s)
  unfolding ◌>>=◌
  bind-Ends Q m f s (ok a t) e h tf = rw (e, ◌>>=◌) ((tf a).run t h)
  bind-Ends Q m f s (err x t) e h tf = rw (e, ◌>>=◌) h

module _ ⦃env : Env⦄ {A B : Type 0} {P E : Contents → Type 0} {R : B → Contents → Type 0} where
  pub Triple-bind :
      (Q : A → Contents → Type 0) (m : M A) (f : A → M B)
      → Triple P m Q E
      → ((a : A) → Triple (Q a) (f a) R E)
      → Triple P (m >>= f) R E
  Triple-bind Q m f tm tf = record {
    run = λ s h. bind-Ends Q m f s (m s) (λ i. m s) (tm.run s h) tf;
  }

  -- The first action keeps the precondition.
  pub Triple-then :
      (m : M A) (f : A → M B)
      → Keeps P m
      → ((c : Contents) → P c → E c)
      → ((a : A) → Triple P (f a) R E)
      → Triple P (m >>= f) R E
  Triple-then m f k g tf = Triple-bind (λ _. P) m f (Triple-Keeps m k (λ a c h. h) g) tf

module _ ⦃env : Env⦄ {A : Type 0} {E : Contents → Type 0} {Q : A → Contents → Type 0} where
  catch-Ends :
      (E' : Contents → Type 0) (m : M A) (h : Error → M A) (s : env.State) (r : Result env.State A)
      → m s ≡ r
      → Ends Q E' r
      → ((e : Error) → Triple E' (h e) Q E)
      → Ends Q E (catch m h s)
  unfolding catch
  catch-Ends E' m h s (ok a t) e p th = rw (e, catch) p
  catch-Ends E' m h s (err x t) e p th = rw (e, catch) ((th x).run t p)

module _ ⦃env : Env⦄ {A : Type 0} {P E : Contents → Type 0} {Q : A → Contents → Type 0} where
  -- A handler runs from what the failure leaves.
  pub Triple-catch :
      (E' : Contents → Type 0) (m : M A) (h : Error → M A)
      → Triple P m Q E'
      → ((e : Error) → Triple E' (h e) Q E)
      → Triple P (catch m h) Q E
  Triple-catch E' m h tm th = record {
    run = λ s p. catch-Ends E' m h s (m s) (λ i. m s) (tm.run s p) th;
  }

module _ ⦃env : Env⦄ {A : Type 0} {E E' : Contents → Type 0} {Q Q' : A → Contents → Type 0} where
  Ends-weaken :
      (r : Result env.State A)
      → ((a : A) (c : Contents) → Q a c → Q' a c)
      → ((c : Contents) → E c → E' c)
      → Ends Q E r
      → Ends Q' E' r
  Ends-weaken (ok a t) f g h = f a _ h
  Ends-weaken (err e t) f g h = g _ h

module _ ⦃env : Env⦄ {A : Type 0} {P P' E E' : Contents → Type 0}
    {Q Q' : A → Contents → Type 0} where
  pub Triple-weaken :
      (m : M A)
      → Triple P' m Q E
      → ((c : Contents) → P c → P' c)
      → ((a : A) (c : Contents) → Q a c → Q' a c)
      → ((c : Contents) → E c → E' c)
      → Triple P m Q' E'
  Triple-weaken m t p f g = record { run = λ s h. Ends-weaken (m s) f g (t.run s (p _ h)) }

module _ ⦃env : Env⦄ {A : Type 0} {P : Contents → Type 0} {Q : A → Contents → Type 0} where
  left_of_ends :
      (r : Result env.State A)
      → ((a : A) (c : Contents) → Q a c → P c)
      → Ends Q P r
      → P (env.contents (left r))
  left_of_ends (ok a t) f h = f a _ h
  left_of_ends (err e t) f h = h

  pub Keeps-Triple : (m : M A) → Triple P m Q P → ((a : A) (c : Contents) → Q a c → P c) → Keeps P m
  Keeps-Triple m t f = record { at = λ s h. left_of_ends (m s) f (t.run s h) }

module _ ⦃env : Env⦄ where
  get-Ends :
      (P : Contents → Type 0) (k : Key) (c : Contents) (r : Result env.State (Option Value))
      → Reads env.contents c (λ v. v ≡ c k) r
      → P c
      → Ends (λ v d. P d × (v ≡ d k)) P r
  get-Ends P k c (ok v t) h p = (subst P (sym h.1) p, h.0 ∙ sym (ap (λ (d : Contents). d k) h.1))
  get-Ends P k c (err e t) h p = subst P (sym h) p

  write-Ends :
      (c d : Contents) (E : Contents → Type 0) (R : Contents → Type 0)
      (r : Result env.State (Unit {0}))
      → Writes env.contents c d r
      → R d
      → E c
      → E d
      → Ends (λ _ t. R t) E r
  write-Ends c d E R (ok _ t) h r i j = subst R (sym h) r
  write-Ends c d E R (err e t) (inl h) r i j = subst E (sym h) i
  write-Ends c d E R (err e t) (inr h) r i j = subst E (sym h) j

module _ ⦃env : Env⦄ {P : Contents → Type 0} where
  -- A read gives what is stored.
  pub Triple-get : (k : Key) → Triple P (get_entry k) (λ v c. P c × (v ≡ c k)) P
  Triple-get k = record {
    run = λ s h. get-Ends P k (env.contents s) (env.get k s) (env.get_lem k s) h;
  }

  pub Triple-put :
      (k : Key) (v : Value) (R E : Contents → Type 0)
      → ((c : Contents) → P c → R (update c k (some v)) × E c × E (update c k (some v)))
      → Triple P (put_entry k v) (λ _. R) E
  Triple-put k v R E f = record {
    run = λ s h.
        let g = f (env.contents s) h in
        write-Ends _ _ E R (env.put k v s) (env.put_lem k v s) g.0 g.1 g.2;
  }

  pub Triple-delete :
      (k : Key) (R E : Contents → Type 0)
      → ((c : Contents) → P c → R (update c k none) × E c × E (update c k none))
      → Triple P (delete_entry k) (λ _. R) E
  Triple-delete k R E f = record {
    run = λ s h.
        let g = f (env.contents s) h in
        write-Ends _ _ E R (env.remove k s) (env.remove_lem k s) g.0 g.1 g.2;
  }

pub update_same : (c : Contents) (k : Key) (v : Option Value) → update c k v k ≡ v
unfolding update
update_same c k v = elim (Key-discrete k k) as (λ d. (if to_bool d then v else c k) ≡ v) [
  | yes _ ↦ λ i. v
  | no f ↦ absurd (f (λ i. k))
]

pub update_other : (c : Contents) (k j : Key) (v : Option Value) → ¬ (k ≡ j) → update c k v j ≡ c j
unfolding update
update_other c k j v n = elim (Key-discrete k j) as (λ d. (if to_bool d then v else c j) ≡ c j) [
  | yes p ↦ absurd (n p)
  | no _ ↦ λ i. c j
]

-- `I` holds on after any write to a key of the class `T`.
abbrev pub Ignores : (Key → Bool) → (Contents → Type 0) → Type 0
Ignores T I = (c : Contents) (k : Key) (v : Option Value) → T k ≡ true → I c → I (update c k v)

-- What stands at a key outside the class is such an invariant.
pub ne_of_class : (T : Key → Bool) (k j : Key) → T k ≡ true → T j ≡ false → ¬ (k ≡ j)
ne_of_class T k j p q e = cc (ap T e)

pub Ignores-at :
    (T : Key → Bool) (j : Key) (P : Option Value → Type 0) → T j ≡ false → Ignores T (λ c. P (c j))
Ignores-at T j P q c k v p h = subst P (sym (update_other c k j v (ne_of_class T k j p q))) h

pub Ignores-⊎ :
    (T : Key → Bool) (I J : Contents → Type 0)
    → Ignores T I
    → Ignores T J
    → Ignores T (λ c. I c ⊎ J c)
Ignores-⊎ T I J f g c k v p (inl h) = inl (f c k v p h)
Ignores-⊎ T I J f g c k v p (inr h) = inr (g c k v p h)

module _ ⦃env : Env⦄ (T : Key → Bool) {I : Contents → Type 0} (g : Ignores T I) where
  pub Keeps-put_ignored : (k : Key) (v : Value) → T k ≡ true → Keeps I (put_entry k v)
  Keeps-put_ignored k v p = Keeps-put k v (λ c h. g c k (some v) p h)

  pub Keeps-delete_ignored : (k : Key) → T k ≡ true → Keeps I (delete_entry k)
  Keeps-delete_ignored k p = Keeps-delete k (λ c h. g c k none p h)
