-- ===== src/Http/Pending.antt =====
-- POST /approvals of buzz-hermes-bridge/src/http/server.ts on the store in memory: who can add a
-- request for an approval, and what it adds.
use assurance_toto.Prelude.{
  subst, ◌||◌, String, Bool, false, Option, none, some, List, [], ◌∷◌, ◌≡◌, refl, lookup, insert,
  member, ◌==◌, eq_iff, eq_refl, inl, inr, Bool-cases, if◌then◌else◌,
}
use assurance_toto.Rows.{ApprobationRow, eur, en_attente}
use assurance_toto.Exec.{Result, continue, pure, ok, ◌>>=◌}
use assurance_toto.Identity.{SignedEvent}
use assurance_toto.Repository.Memory.{MemoryState, create_found}
use assurance_toto.Pipeline.Types.{Deps, World, on_db, put_db}
use assurance_toto.Pipeline.InMemory.{in_memory}
use assurance_toto.Http.{ApprobationBody, Answer, refused, approbation, post_approvals, norm}

module _ {V : Type 0} (key : String) (v : V) where
  lookup-insert_self : (m : List (String × V)) → lookup key (insert key v m) ≡ some v
  unfolding lookup insert
  lookup-insert_self [] = rw (eq_refl key) refl
  lookup-insert_self ((j, u) ∷ m) = elim (Bool-cases (j == key)) [
    | inl here ↦ rw (here, here) refl
    | inr other ↦ rw (other, other) (lookup-insert_self m)
  ]

  lookup-insert_other :
      (k : String) (m : List (String × V))
      → (key == k) ≡ false
      → lookup k (insert key v m) ≡ lookup k m
  unfolding lookup insert
  lookup-insert_other k [] apart = rw apart refl
  lookup-insert_other k ((j, u) ∷ m) apart = elim (Bool-cases (j == key)) [
    | inl here ↦ let same : j ≡ key = (eq_iff j key).0 here in rw (here, same, apart) refl
    | inr other ↦ rw (other, lookup-insert_other k m apart) refl
  ]

  lookup-insert :
      (k : String) (m : List (String × V))
      → lookup k (insert key v m) ≡ (if key == k then some v else lookup k m)
  lookup-insert k m = elim (Bool-cases (key == k)) [
    | inl same ↦ rw same (
        subst (λ j. lookup j (insert key v m) ≡ some v) ((eq_iff key k).0 same)
          (lookup-insert_self m))
    | inr other ↦ rw other (lookup-insert_other k m other)
  ]

  lookup-kept :
      (k : String) (m : List (String × V))
      → lookup key m ≡ some v
      → lookup k m ≡ (if key == k then some v else lookup k m)
  lookup-kept k m there = elim (Bool-cases (key == k)) [
    | inl same ↦ rw same (subst (λ j. lookup j m ≡ some v) ((eq_iff key k).0 same) there)
    | inr other ↦ rw other refl
  ]

-- A request that waits for its decision, as the body asks for it, but without the body's reason.
pub record IsPending (body : ApprobationBody) (by : String) (row : ApprobationRow) : Type 0 where
  pub waiting : row.statut ≡ en_attente
  pub undecided : row.decided_by ≡ none
  pub unexecuted : row.execution ≡ none
  pub correlated : row.correlation_id ≡ body.correlation_id
  pub typed : row.type_name ≡ body.type_name
  pub claimed : row.claim_id ≡ some body.claim_id
  pub amount : row.montant_eur ≡ some (eur body.montant_eur)
  pub unexplained : row.reason ≡ none
  pub requested : row.requested_by ≡ some by

module _ {P : Type 0} (body : ApprobationBody) (by : String) (w t : World MemoryState P)
    (answer : Answer) where
  -- The row of the request, from the one that was under its correlation id.
  abbrev RowAfter : Option ApprobationRow → ApprobationRow → Type 0
  RowAfter none row = IsPending body by row
  RowAfter (some old) row = (row ≡ old) × (t ≡ w)

  -- What an admitted request leaves: the row that the answer carries is under the correlation id; it is
  -- the one that was there, or else a new one that waits; nothing else has changed.
  pub record IsAsked : Type 0 where
    pub row : ApprobationRow
    pub answered : answer ≡ approbation row
    pub after : RowAfter (lookup body.correlation_id w.db.approbations) row
    pub approbations :
        (k : String)
        → lookup k t.db.approbations
          ≡ (if body.correlation_id == k then some row else lookup k w.db.approbations)
    pub rest : record t { db = record t.db { approbations = w.db.approbations } } ≡ w

module _ {P : Type 0} (deps : Deps MemoryState P) (verify_event : SignedEvent → Option Bool)
    (uuid : String) where
  abbrev create_in :
      ApprobationBody
      → String
      → World MemoryState P
      → Option ApprobationRow
      → Result ApprobationRow × World MemoryState P
  create_in body by w o = put_db w (
      create_found deps.now body.correlation_id body.type_name (some body.claim_id)
        (some (eur body.montant_eur)) (some by) o w.db)

  asked :
      (body : ApprobationBody) (by : String) (w : World MemoryState P) (o : Option ApprobationRow)
      → lookup body.correlation_id w.db.approbations ≡ o
      → let (answer, t) = continue (λ row. pure (approbation row)) (create_in body by w o) in
        (a : Answer) × (answer ≡ ok a) × IsAsked body by w t a
  asked body by w none absent = (
    _,
    refl,
    record {
      row = _;
      answered = refl;
      after = rw absent (record {
        waiting = refl;
        undecided = refl;
        unexecuted = refl;
        correlated = refl;
        typed = refl;
        claimed = refl;
        amount = refl;
        unexplained = refl;
        requested = refl;
      });
      approbations = λ k. lookup-insert body.correlation_id _ k w.db.approbations;
      rest = refl;
    },
  )
  asked body by w (some found) there = (
    _,
    refl,
    record {
      row = found;
      answered = refl;
      after = rw there (refl, refl);
      approbations = λ k. lookup-kept body.correlation_id found k w.db.approbations there;
      rest = refl;
    },
  )

  -- A POST of a request for an approval by a key that is neither a CEO's nor of an allowed role is
  -- refused with 403 and changes nothing. By any other key it is answered with the row under its
  -- correlation id: the row that was there, and then nothing changes, or else a new row, which waits
  -- for a decision on the amount and the claim that were asked for, without the reason that was given. Nothing else changes, of the other
  -- requests or of anything in the store, the queue and the messages.
  pub post_approvals-pending :
      (body : ApprobationBody) (w : World MemoryState P)
      → let by = norm deps verify_event uuid body.requested_by in
        let (answer, t) = post_approvals (in_memory deps) verify_event uuid (some body) w in
        if member by deps.ceo_pubkeys_hex || member by deps.allowed_unsigned_roles_hex
        then ((a : Answer) × (answer ≡ ok a) × IsAsked body by w t a)
        else (answer ≡ ok (refused 403 "forbidden" "auteur_non_allowliste")) × (t ≡ w)
  unfolding post_approvals on_db ◌>>=◌
  post_approvals-pending body w =
      let by = norm deps verify_event uuid body.requested_by in
      elim (Bool-cases
        (member by deps.ceo_pubkeys_hex || member by deps.allowed_unsigned_roles_hex)) [
          | inr stranger ↦ rw stranger (refl, refl)
          | inl allowed ↦
              rw allowed (asked body by w (lookup body.correlation_id w.db.approbations) refl)
        ]
