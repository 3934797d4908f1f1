-- ===== src/Tests/Transactions.antt =====
-- `PgRepository.inTransaction` of buzz-hermes-bridge/src/db/repository.ts on a pool that counts its
-- connections and whose COMMIT fails.
use assurance_toto.Prelude.{ℕ, suc, ◌-◌, Bool, true, ◌≡◌, refl, inl, arith, ◌==◌, if◌then◌else◌}
use assurance_toto.Exec.{Exec, ok, thrown, other_error, pure, throw, catch, ◌>>=◌}
use assurance_toto.Exec.Keeps.{Keeps, Keeps-if, Keeps-pure, Keeps-throw}
use assurance_toto.Repository.Transaction.{
  Pool, CountsTaken, pg_in_transaction, and_release, pg_in_transaction-taken,
}

abbrev failing : Pool ℕ
failing = record {
  connect = λ n. (ok tt, suc n);
  send = λ text. if text == "COMMIT" then throw (other_error "lost") else pure tt;
  release = λ n. n - 1;
}

abbrev count_of : ℕ → ℕ
count_of n = n

failing-CountsTaken : CountsTaken failing count_of
failing-CountsTaken = record {
  connected = λ s. inl (refl, refl);
  given_back = λ s n e. omega (arith, e);
  sent = λ text. Keeps-if _ _ _ (Keeps-throw _) (Keeps-pure _);
}

abbrev steady_body : Exec ℕ Bool
steady_body = pure true

steady_body-Keeps : Keeps count_of steady_body
steady_body-Keeps = record { at = λ s. refl }

commit_lost : (pg_in_transaction failing steady_body 3).0 ≡ thrown (other_error "lost")
unfolding pg_in_transaction and_release catch ◌>>=◌
commit_lost = refl

pg_in_transaction-taken_example : count_of (pg_in_transaction failing steady_body 3).1 ≡ count_of 3
pg_in_transaction-taken_example =
    pg_in_transaction-taken failing count_of failing-CountsTaken steady_body steady_body-Keeps 3
