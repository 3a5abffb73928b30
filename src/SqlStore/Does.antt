-- ===== src/SqlStore/Does.antt =====
-- What a step of src/persistence/sqlstore.rs has sent over its transaction when it succeeds, with a rule
-- for each way to build a step.
use mathlib.Core.List.{append_assoc, append-nil}
use artemis_light.Prelude.{ℕ, ◌≡◌, refl, sym, ap, ◌∙◌, Option, List, [], ◌∷◌, ◌++◌, ok, err, Result}
use artemis_light.Schema.{SqlValue}
use artemis_light.SqlStore.{Sqlx, StoreError}
use artemis_light.SqlStore.Session.{
  Session, ◌>>=◌, bound, lift, Fallible, Value, run, fetch, of_execute, of_fetch,
}

-- A statement with its arguments.
abbrev pub Statement : Sqlx → Type 0
Statement x = List ℕ × List (SqlValue x.Real)

-- What is relied on: the statements of a transaction run in their order, a commit makes all of them
-- last at once, and one that fails or is dropped leaves the database as it was.
pub record IsTransactional (x : Sqlx) : Type 0 where
  pub sent : x.Tx → List (Statement x)
  pub committed : x.Db → List (List (Statement x))
  pub begin_sent : (db : x.Db) (tx : x.Tx) → (x.begin db).0 ≡ ok tx → sent tx ≡ []
  pub begin_keeps : (db : x.Db) → committed (x.begin db).1 ≡ committed db
  pub execute_sent :
      (sql : List ℕ) (args : List (SqlValue x.Real)) (tx : x.Tx)
      → sent (x.execute sql args tx).1 ≡ sent tx ++ (sql, args) ∷ []
  pub fetch_sent :
      (sql : List ℕ) (args : List (SqlValue x.Real)) (tx : x.Tx)
      → sent (x.fetch_optional sql args tx).1 ≡ sent tx ++ (sql, args) ∷ []
  pub commit_ok :
      (tx : x.Tx) (db : x.Db)
      → (x.commit tx db).0 ≡ ok tt
      → committed (x.commit tx db).1 ≡ committed db ++ sent tx ∷ []
  pub commit_err :
      (tx : x.Tx) (db : x.Db) (e : x.Failure)
      → (x.commit tx db).0 ≡ err e
      → committed (x.commit tx db).1 ≡ committed db
  pub abandon_keeps : (tx : x.Tx) (db : x.Db) → committed (x.abandon tx db) ≡ committed db

module _ {x : Sqlx} (h : IsTransactional x) where
  -- Every success of `m` has sent statements `l` with the result `a` such that `Q a l`.
  abbrev pub Does :
      {A : Type 0}
      → Session (StoreError x.Failure) x.Tx A
      → (A → List (Statement x) → Type 0)
      → Type 0
  Does {A} m Q =
      (tx : x.Tx) (a : A)
      → (m tx).0 ≡ ok a
      → (l : List (Statement x)) × (h.sent (m tx).1 ≡ h.sent tx ++ l) × Q a l

  pub Does-lift : {A : Type 0} (r : Fallible x A) → Does (lift r) (λ a l. (r ≡ ok a) × (l ≡ []))
  Does-lift r tx a e = ([], sym (append-nil (h.sent tx)), (e, refl))

  bound-ok :
      {A B : Type 0} (r : Fallible x A × x.Tx) (k : A → Session (StoreError x.Failure) x.Tx B)
      (b : B)
      → (bound r k).0 ≡ ok b
      → (a : A) × (r.0 ≡ ok a) × (bound r k ≡ k a r.1)
  bound-ok (ok a, tx) k b e = (a, refl, refl)
  bound-ok (err f, tx) k b e = cc

  pub Does-bind :
      {A B : Type 0} (m : Session (StoreError x.Failure) x.Tx A)
      (k : A → Session (StoreError x.Failure) x.Tx B) (Q : A → List (Statement x) → Type 0)
      (R : A → B → List (Statement x) → Type 0)
      → Does m Q
      → ((a : A) → Does (k a) (R a))
      → Does
          (m >>= k)
          (λ b l. (a : A) × (l1 l2 : List (Statement x)) × Q a l1 × R a b l2 × (l ≡ l1 ++ l2))
  Does-bind m k Q R dm dk tx b e =
      let (a, ok_a, step) = bound-ok (m tx) k b e in
      let (l1, s1, q) = dm tx a ok_a in
      let (l2, s2, r) = dk a (m tx).1 b (ap (λ v. v.0) (sym step) ∙ e) in
      (
        l1 ++ l2,
        ap (λ v. h.sent v.1) step ∙ s2 ∙ ap (λ l. l ++ l2) s1 ∙ append_assoc (h.sent tx) l1 l2,
        ((a, l1, l2, q, r, refl)),
      )

  pub Does-weaken :
      {A : Type 0} (m : Session (StoreError x.Failure) x.Tx A)
      (Q R : A → List (Statement x) → Type 0)
      → Does m Q
      → ((a : A) (l : List (Statement x)) → Q a l → R a l)
      → Does m R
  Does-weaken m Q R dm f tx a e = let (l, s, q) = dm tx a e in (l, s, f a l q)

  of_execute-tx : (r : Result x.Failure (Unit {0}) × x.Tx) → (of_execute x r).1 ≡ r.1
  of_execute-tx (ok u, tx) = refl
  of_execute-tx (err e, tx) = refl

  of_fetch-tx : (r : Result x.Failure (Option x.Cells) × x.Tx) → (of_fetch x r).1 ≡ r.1
  of_fetch-tx (ok u, tx) = refl
  of_fetch-tx (err e, tx) = refl

  pub Does-run :
      (sql : List ℕ) (args : List (Value x)) → Does (run x sql args) (λ _ l. l ≡ (sql, args) ∷ [])
  unfolding run
  Does-run sql args tx a e = (
    (sql, args) ∷ [],
    ap h.sent (of_execute-tx (x.execute sql args tx)) ∙ h.execute_sent sql args tx,
    refl,
  )

  pub Does-fetch :
      (sql : List ℕ) (args : List (Value x)) → Does (fetch x sql args) (λ _ l. l ≡ (sql, args) ∷ [])
  unfolding fetch
  Does-fetch sql args tx a e = (
    (sql, args) ∷ [],
    ap h.sent (of_fetch-tx (x.fetch_optional sql args tx)) ∙ h.fetch_sent sql args tx,
    refl,
  )

  -- Every success of `m` has sent `l`.
  abbrev pub Sends :
      {A : Type 0} → Session (StoreError x.Failure) x.Tx A → List (Statement x) → Type 0
  Sends m l = Does m (λ _ sent. sent ≡ l)

  pub Sends-bind :
      {A B : Type 0} (m : Session (StoreError x.Failure) x.Tx A)
      (k : A → Session (StoreError x.Failure) x.Tx B) (l1 l2 : List (Statement x))
      → Sends m l1
      → ((a : A) → Sends (k a) l2)
      → Sends (m >>= k) (l1 ++ l2)
  Sends-bind m k l1 l2 hm hk tx b e =
      let (l, s, (a, m1, m2, p, q, r)) = Does-bind m k _ _ hm hk tx b e in (l, s, rw (r, p, q) refl)

  -- A step that comes first and whose result is not used.
  pub Does-after :
      {B : Type 0} (m : Session (StoreError x.Failure) x.Tx (Unit {0}))
      (k : Session (StoreError x.Failure) x.Tx B) (l1 : List (Statement x))
      (R : B → List (Statement x) → Type 0)
      → Sends m l1
      → Does k R
      → Does (m >>= λ _. k) (λ b l. (l2 : List (Statement x)) × R b l2 × (l ≡ l1 ++ l2))
  Does-after m k l1 R hm hk tx b e =
      let (l, s, (a, m1, m2, p, q, r)) =
        Does-bind m (λ _. k) (λ _ l. l ≡ l1) (λ _. R) hm (λ _. hk) tx b e in
      (l, s, (m2, q, r ∙ ap (λ l. l ++ m2) p))

  -- A result that comes first.
  pub Does-given :
      {A B : Type 0} (r : Fallible x A) (k : A → Session (StoreError x.Failure) x.Tx B)
      (R : A → B → List (Statement x) → Type 0)
      → ((a : A) → Does (k a) (R a))
      → Does (lift r >>= k) (λ b l. (a : A) × (r ≡ ok a) × R a b l)
  Does-given (ok a) k R hk tx b e = let (l, s, q) = hk a tx b e in (l, s, (a, refl, q))
  Does-given (err f) k R hk tx b e = cc
