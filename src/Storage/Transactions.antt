-- ===== src/Storage/Transactions.antt =====
-- logical.WithTransaction of the OpenBao SDK, a parameter: on a transactional storage an action is applied
-- as a whole or not at all.
use openbao_plugin_secrets_s.Prelude.{◌≡◌, subst, sym, ◌⊎◌, inl, inr, Bool, true, false}
use openbao_plugin_secrets_s.Storage.{Contents, Result, ok, err, Env, M}
use openbao_plugin_secrets_s.Storage.Triples.{Triple, Ends}

-- What a transaction leaves of the contents `c` that it starts from, by the run of its action.
abbrev pub Whole : {S A : Type 0} → (S → Contents) → Contents → Result S A → Result S A → Type 0
Whole contents c (ok a t) (ok b u) = (a ≡ b) × (contents u ≡ contents t)
Whole contents c (ok a t) (err e u) = (contents u ≡ c) ⊎ (contents u ≡ contents t)
Whole contents c (err e t) (ok b u) = ⊥
Whole contents c (err e t) (err x u) = contents u ≡ c

pub record Transactions (env : Env) : Type 1 where
  pub is_transactional : Bool
  pub with_transaction : {A : Type 0} → M ⦃env = env⦄ A → M ⦃env = env⦄ A
  pub with_transaction_lem :
      {A : Type 0} (m : M ⦃env = env⦄ A) (s : env.State)
      → is_transactional ≡ true
      → Whole env.contents (env.contents s) (m s) (with_transaction m s)
  -- On another storage the action runs as it is.
  pub without_transaction :
      {A : Type 0} (m : M ⦃env = env⦄ A) → is_transactional ≡ false → with_transaction m ≡ m

module _ ⦃env : Env⦄ {A : Type 0} {E : Contents → Type 0} {Q : A → Contents → Type 0} where
  Whole-Ends :
      (F : Contents → Type 0) (c : Contents) (r q : Result env.State A)
      → Whole env.contents c r q
      → Ends Q F r
      → E c
      → ((a : A) (d : Contents) → Q a d → E d)
      → Ends Q E q
  Whole-Ends F c (ok a t) (ok b u) w h e f =
      subst (λ x. Q x (env.contents u)) w.0 (subst (Q a) (sym w.1) h)
  Whole-Ends F c (ok a t) (err x u) (inl p) h e f = subst E (sym p) e
  Whole-Ends F c (ok a t) (err x u) (inr p) h e f = subst E (sym p) (f a (env.contents t) h)
  Whole-Ends F c (err x t) (ok b u) w h e f = absurd w
  Whole-Ends F c (err x t) (err y u) w h e f = subst E (sym w) e

  -- Where the action fails in between does not count: what stood before is left, or its outcome.
  pub Triple-with_transaction :
      {P F : Contents → Type 0} (t : Transactions env) (m : M A)
      → t.is_transactional ≡ true
      → Triple P m Q F
      → ((c : Contents) → P c → E c)
      → ((a : A) (c : Contents) → Q a c → E c)
      → Triple P (t.with_transaction m) Q E
  Triple-with_transaction {F = F} t m e h before after = record {
    run = λ s p.
        Whole-Ends F (env.contents s) (m s) (t.with_transaction m s) (t.with_transaction_lem m s e)
          (h.run s p) (before _ p) after;
  }
