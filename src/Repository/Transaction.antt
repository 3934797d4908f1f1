-- ===== src/Repository/Transaction.antt =====
-- `PgRepository.inTransaction` of buzz-hermes-bridge/src/db/repository.ts, over a pool of connections to
-- Postgres that is a parameter.
use assurance_toto.Prelude.{ℕ, suc, String, ◌≡◌, ◌∙◌, ◌⊎◌, inl, inr}
use assurance_toto.Exec.{
  Exec, Result, ok, thrown, Thrown, pure, throw, catch, continue, ◌>>=◌, ◌>>◌,
}
use assurance_toto.Exec.Keeps.{Keeps, Keeps-bind, Keeps-pure, Keeps-throw, Keeps-catch}

-- A `Pool` of the library pg, and the statements of the client that it gave out.
pub record Pool (S : Type 0) : Type 0 where
  pub connect : Exec S (Unit {0})
  pub send : (text : String) → Exec S (Unit {0})
  pub release : S → S

abbrev released : {S A : Type 0} → (S → S) → Result A × S → Result A × S
released release (r, s) = (r, release s)

-- `try { ... } finally { client.release(); }`
unfoldable pub and_release : {S A : Type 0} → (S → S) → Exec S A → Exec S A
and_release release m s = released release (m s)

module _ {S : Type 0} (pool : Pool S) where
  abbrev pub committed : {A : Type 0} → Exec S A → Exec S A
  committed body = pool.send "BEGIN" >> (body >>= λ out. pool.send "COMMIT" >> pure out)

  -- A `ROLLBACK` that fails is dropped.
  abbrev pub rolled_back : {A : Type 0} → Thrown → Exec S A
  rolled_back err = catch (pool.send "ROLLBACK") (λ e. pure tt) >> throw err

  unfoldable pub pg_in_transaction : {A : Type 0} → Exec S A → Exec S A
  pg_in_transaction body =
      pool.connect >> and_release pool.release (catch (committed body) rolled_back)

  -- What pg documents of the connections that a pool has given out: connecting takes one or throws,
  -- releasing gives one back, and a statement takes and gives none.
  pub record CountsTaken (taken : S → ℕ) : Type 0 where
    pub connected :
        (s : S)
        → ((pool.connect s).0 ≡ ok tt) × (taken (pool.connect s).1 ≡ suc (taken s))
          ⊎ ((e : Thrown) × ((pool.connect s).0 ≡ thrown e) × (taken (pool.connect s).1 ≡ taken s))
    pub given_back : (s : S) (n : ℕ) → taken s ≡ suc n → taken (pool.release s) ≡ n
    pub sent : (text : String) → Keeps taken (pool.send text)

  module _ (taken : S → ℕ) (counts : CountsTaken taken) {A : Type 0} (body : Exec S A)
      (steady : Keeps taken body) where
    attempt-Keeps : Keeps taken (catch (committed body) rolled_back)
    attempt-Keeps =
        Keeps-catch _ _
          (Keeps-bind _ _ (counts.sent "BEGIN") (λ u.
            Keeps-bind _ _ steady
              (λ out. Keeps-bind _ _ (counts.sent "COMMIT") (λ v. Keeps-pure _))))
          (λ err.
            Keeps-bind _ _ (Keeps-catch _ _ (counts.sent "ROLLBACK") (λ e. Keeps-pure _))
              (λ u. Keeps-throw _))

    after_connect :
        (s : S) (r : Result (Unit {0})) (t : S)
        → ((r ≡ ok tt) × (taken t ≡ suc (taken s)))
          ⊎ ((e : Thrown) × (r ≡ thrown e) × (taken t ≡ taken s))
        → taken
            (continue (λ u. and_release pool.release (catch (committed body) rolled_back)) (r, t)).1
          ≡ taken s
    unfolding and_release
    after_connect s (ok u) t (inl (e, h)) =
        counts.given_back (catch (committed body) rolled_back t).1 (taken s)
          (attempt-Keeps.at t ∙ h)
    after_connect s (ok u) t (inr (e, n, h)) = absurd (cc (n))
    after_connect s (thrown x) t (inl (e, h)) = absurd (cc (e))
    after_connect s (thrown x) t (inr (e, n, h)) = h

    -- No transaction leaks a connection: whether connecting, `BEGIN`, the body, `COMMIT` or `ROLLBACK`
    -- throws or not, as many connections are given out after it as before, if the body itself takes and
    -- gives back none.
    pub pg_in_transaction-taken : (s : S) → taken (pg_in_transaction body s).1 ≡ taken s
    unfolding pg_in_transaction ◌>>=◌
    pg_in_transaction-taken s =
        let h = counts.connected s in let (r, t) = pool.connect s in after_connect s r t h
