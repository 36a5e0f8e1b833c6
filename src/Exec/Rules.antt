-- ===== src/Exec/Rules.antt =====
-- Proof rules for the service functions: one for each way in which a block goes on or raises. `Q` is
-- what has to hold of the result and the state that a call leaves.
use mathlib.Core.Path.{subst}
use fast_api_community_backe.Common.{
  ℕ, Bool, false, Option, some, ◌≡◌, refl, sym, inl, inr, Bool-cases, Option-cases,
}
use fast_api_community_backe.Db.{Db, Query}
use fast_api_community_backe.Exec.{
  Error, Result, State, Exec, ok, err, pure, after, fetch, raise_if, or_raise, execute, transaction,
  ◌>>=◌, ◌>>◌,
}

after-after :
    {A B C : Type 0} (r : Result A × State) (f : A → Exec B) (g : B → Exec C)
    → after (after r f) g ≡ after r (λ a. f a >>= g)
unfolding ◌>>=◌
after-after (ok a, t) f g = refl
after-after (err e, t) f g = refl

-- what a transaction leaves of the outcome of its body
abbrev pub undo : {A : Type 0} → State → Result A × State → Result A × State
undo s (ok a, t) = (ok a, t)
undo s (err e, t) = (err e, record t { db = s.db })

undo-eq :
    {A : Type 0} (s : State) (r : Result A × State)
    → elim r.0 as (λ _. Result A × State) [
      | ok a ↦ (ok a, r.1)
      | err e ↦ (err e, record r.1 { db = s.db })
    ]
      ≡ undo s r
undo-eq s (ok a, t) = refl
undo-eq s (err e, t) = refl

module _ {B : Type 0} (Q : Result B × State → Type 0) where
  -- The blocks of a sequence, one behind the other.
  pub by_assoc :
      {A C : Type 0} (m : Exec A) (f : A → Exec C) (g : C → Exec B) (s : State)
      → Q ((m >>= λ a. (f a >>= g)) s)
      → Q (((m >>= f) >>= g) s)
  unfolding ◌>>=◌
  by_assoc m f g s h = subst Q (sym (after-after (m s) f g)) h

  pub by_execute :
      (q : Query Db) (k : Unit {0} → Exec B) (s : State)
      → Q (k tt (record s { db = q s.now s.db }))
      → Q ((execute q >>= k) s)
  unfolding ◌>>=◌
  by_execute q k s h = h

  pub by_transaction : (m : Exec B) (s : State) → Q (undo s (m s)) → Q (transaction m s)
  unfolding ◌>>=◌
  by_transaction m s h = subst Q (sym (undo-eq s (m s))) h

  pub by_fetch :
      {A : Type 0} (q : Query A) (f : A → Exec B) (s : State)
      → Q (f (q s.now s.db) s)
      → Q ((fetch q >>= f) s)
  unfolding ◌>>=◌
  by_fetch q f s h = h

  pub by_guard :
      (c : Bool) (e : Error) (k : Unit {0} → Exec B) (s : State)
      → Q (err e, s)
      → (c ≡ false → Q (k tt s))
      → Q ((raise_if c e >>= k) s)
  unfolding ◌>>=◌
  by_guard c e k s h f = elim (Bool-cases c) [
    | inl t ↦ rw (t, raise_if) h
    | inr t ↦ rw (t, raise_if) (f t)
  ]

  pub by_some :
      {A : Type 0} (o : Option A) (e : Error) (f : A → Exec B) (s : State)
      → Q (err e, s)
      → ((a : A) → o ≡ some a → Q (f a s))
      → Q ((or_raise o e >>= f) s)
  unfolding ◌>>=◌
  by_some o e f s h g = elim (Option-cases o) [
    | inl t ↦ rw (t, or_raise) h
    | inr (a, t) ↦ rw (t, or_raise) (g a t)
  ]

  -- A guard that is known not to raise.
  pub by_pass :
      (c : Bool) (e : Error) (k : Unit {0} → Exec B) (s : State)
      → c ≡ false
      → Q (k tt s)
      → Q ((raise_if c e >>= k) s)
  unfolding ◌>>=◌
  by_pass c e k s t h = rw (t, raise_if) h

  -- A value that is known to be there.
  pub by_present :
      {A : Type 0} (o : Option A) (e : Error) (f : A → Exec B) (s : State) {a : A}
      → o ≡ some a
      → Q (f a s)
      → Q ((or_raise o e >>= f) s)
  unfolding ◌>>=◌
  by_present o e f s t h = rw (t, or_raise) h

  -- A call whose outcome is known.
  pub by_ok :
      {A : Type 0} (m : Exec A) (f : A → Exec B) (s : State) {a : A} {t : State}
      → m s ≡ (ok a, t)
      → Q (f a t)
      → Q ((m >>= f) s)
  unfolding ◌>>=◌
  by_ok m f s p h = subst (λ r. Q (after r f)) (sym p) h

  pub by_err :
      {A : Type 0} (m : Exec A) (f : A → Exec B) (s : State) {e : Error} {t : State}
      → m s ≡ (err e, t)
      → Q (err e, t)
      → Q ((m >>= f) s)
  unfolding ◌>>=◌
  by_err m f s p h = subst (λ r. Q (after r f)) (sym p) h

  -- A call that returns: the state that it leaves is named by the call.
  pub by_run :
      {A : Type 0} (m : Exec A) (f : A → Exec B) (s : State) {a : A}
      → (m s).0 ≡ ok a
      → Q (f a (m s).1)
      → Q ((m >>= f) s)
  unfolding ◌>>=◌
  by_run m f s {a} p h = subst (λ r. Q (after (r, (m s).1) f)) (sym p) h

  -- a transaction of two writes, and what follows it
  pub by_commit_then :
      (p q : Query Db) (k : Unit {0} → Exec B) (s : State)
      → Q (k tt (record s { db = q s.now (p s.now s.db) }))
      → Q ((transaction (execute p >> execute q) >>= k) s)
  unfolding ◌>>=◌
  by_commit_then p q k s h = h

  pub by_value :
      {A : Type 0} (a : A) (f : A → Exec B) (s : State) → Q (f a s) → Q ((pure a >>= f) s)
  unfolding ◌>>=◌
  by_value a f s h = h

  pub by_pure : (b : B) (s : State) → Q (ok b, s) → Q (pure b s)
  unfolding ◌>>=◌
  by_pure b s h = h

-- Transactions that cannot raise, by the writes that they make.
module _ (Q : Result (Unit {0}) × State → Type 0) where
  -- a write that ends a block
  pub by_last_execute :
      (q : Query Db) (s : State) → Q (ok tt, record s { db = q s.now s.db }) → Q (execute q s)
  unfolding ◌>>=◌
  by_last_execute q s h = h

  -- a guard that ends a block
  pub by_last_guard :
      (c : Bool) (e : Error) (s : State)
      → Q (err e, s)
      → (c ≡ false → Q (ok tt, s))
      → Q (raise_if c e s)
  unfolding ◌>>=◌
  by_last_guard c e s h f = elim (Bool-cases c) [
    | inl t ↦ rw (t, raise_if) h
    | inr t ↦ rw (t, raise_if) (f t)
  ]

  pub by_commit :
      (p q : Query Db) (s : State)
      → Q (ok tt, record s { db = q s.now (p s.now s.db) })
      → Q (transaction (execute p >> execute q) s)
  unfolding ◌>>=◌
  by_commit p q s h = h

  pub by_commit_three :
      (p q r : Query Db) (s : State)
      → Q (ok tt, record s { db = r s.now (q s.now (p s.now s.db)) })
      → Q (transaction (execute p >> (execute q >> execute r)) s)
  unfolding ◌>>=◌
  by_commit_three p q r s h = h

  pub by_commit_four :
      (p q r t : Query Db) (s : State)
      → Q (ok tt, record s { db = t s.now (r s.now (q s.now (p s.now s.db))) })
      → Q (transaction (execute p >> (execute q >> (execute r >> execute t))) s)
  unfolding ◌>>=◌
  by_commit_four p q r t s h = h

  -- a write, then a sum that it changed is read and written, then the log
  pub by_commit_total :
      (p : Query Db) (sum : Query ℕ) (w : ℕ → Query Db) (l : Query Db) (s : State)
      → let db = p s.now s.db in
        Q (ok tt, record s { db = l s.now (w (sum s.now db) s.now db) })
        → Q (transaction (execute p >> (fetch sum >>= λ n. (execute (w n) >> execute l))) s)
  unfolding ◌>>=◌
  by_commit_total p sum w l s h = h

  pub by_commit_total_twice :
      (p q : Query Db) (sum : Query ℕ) (w : ℕ → Query Db) (l : Query Db) (s : State)
      → let db = q s.now (p s.now s.db) in
        Q (ok tt, record s { db = l s.now (w (sum s.now db) s.now db) })
        → Q (
            transaction
              (execute p >> (execute q >> (fetch sum >>= λ n. (execute (w n) >> execute l))))
              s)
  unfolding ◌>>=◌
  by_commit_total_twice p q sum w l s h = h
