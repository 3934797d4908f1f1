-- ===== src/Audit/Chain.antt =====
-- What the hash chain of buzz-hermes-bridge/src/audit.ts gives: appending keeps it, a changed payload
-- is found at its row, and two logs with one final hash agree up to a collision of the hash.
use Prim.Native.String
use Prim.Native.String.{count}
use text.Mathlib.TextLemmas.{append_inj}
use assurance_toto.Prelude.{
  ℕ, String, Option, List, [], ◌∷◌, ◌++◌, ◌≡◌, ◌≢◌, refl, sym, ap, ◌∙◌, ◌⊎◌, inl, inr, arith,
  eq_iff, length, Bool-cases, ◌==◌, member, eq_refl, true,
}
use assurance_toto.Json.{Json, payload_or_empty, stable_stringify}
use assurance_toto.Rows.{AuditRow}
use assurance_toto.Audit.{
  payload_or_empty, compute_audit_hash, verify_from, parsed, intact, broken_at,
}

-- The hash that the next row has to name.
abbrev pub tip : String → List AuditRow → String
tip prev [] = prev
tip prev (row ∷ rows) = tip row.hash rows

member-first : (x : String) (xs : List String) → member x (x ∷ xs) ≡ true
unfolding member
member-first x xs = rw (eq_refl x)

module _ (sha256 : String → String) (parse_json : String → Option Json) where
  -- The value that the verification reads back from a row.
  abbrev pub value_of : AuditRow → Json
  value_of row = parsed row.payload (parse_json row.payload)

  -- A row that the loop passes from `prev`.
  pub record Links (prev : String) (row : AuditRow) : Type 0 where
    pub follows : row.prev_hash ≡ prev
    pub hashed : row.hash ≡ compute_audit_hash sha256 prev (value_of row)

  pub verify-head :
      (prev : String) (row : AuditRow) (rows : List AuditRow)
      → verify_from sha256 parse_json prev (row ∷ rows) ≡ intact
      → Links prev row × (verify_from sha256 parse_json row.hash rows ≡ intact)
  unfolding verify_from
  verify-head prev row rows h = ground (
    arith,
    eq_iff row.prev_hash prev,
    eq_iff row.hash (compute_audit_hash sha256 prev (value_of row)),
  )

  pub verify-cons :
      (prev : String) (row : AuditRow) (rows : List AuditRow)
      → Links prev row
      → verify_from sha256 parse_json prev (row ∷ rows)
        ≡ verify_from sha256 parse_json row.hash rows
  unfolding verify_from
  verify-cons prev row rows l = ground (
    arith,
    l.follows,
    l.hashed,
    eq_iff row.prev_hash prev,
    eq_iff row.hash (compute_audit_hash sha256 prev (value_of row)),
  )

  pub verify-append :
      (prev : String) (rows more : List AuditRow)
      → verify_from sha256 parse_json prev rows ≡ intact
      → verify_from sha256 parse_json prev (rows ++ more)
        ≡ verify_from sha256 parse_json (tip prev rows) more
  verify-append prev [] more h = refl
  verify-append prev (row ∷ rows) more h =
      let (l, later) = verify-head prev row rows h in
      verify-cons prev row (rows ++ more) l ∙ verify-append row.hash rows more later

  -- Replacing the payload of one row of an intact log by a text whose value hashes otherwise makes the
  -- verification stop at that row, with its number.
  pub verify_tampered :
      (prev : String) (before : List AuditRow) (row : AuditRow) (after : List AuditRow)
      (payload : String)
      → verify_from sha256 parse_json prev (before ++ row ∷ after) ≡ intact
      → compute_audit_hash sha256 (tip prev before) (value_of (record row { payload = payload }))
        ≢ row.hash
      → verify_from sha256 parse_json prev (before ++ record row { payload = payload } ∷ after)
        ≡ broken_at row.seq "hash mismatch (tampered payload?)"
  unfolding verify_from
  verify_tampered prev [] row after payload h ne =
      let (l, later) = verify-head prev row after h in
      ground (
        arith,
        l.follows,
        eq_iff row.prev_hash prev,
        eq_iff row.hash
            (compute_audit_hash sha256 prev (value_of (record row { payload = payload }))),
      )
  verify_tampered prev (first ∷ before) row after payload h ne =
      let (l, later) = verify-head prev first (before ++ row ∷ after) h in
      verify-cons prev first (before ++ record row { payload = payload } ∷ after) l
      ∙ verify_tampered first.hash before row after payload later ne

  -- The texts that were hashed for the rows of a log.
  unfoldable pub hashed_texts : String → List AuditRow → List String
  hashed_texts prev [] = []
  hashed_texts prev (row ∷ rows) =
      String.◌++◌ prev (stable_stringify (payload_or_empty (value_of row)))
      ∷ hashed_texts row.hash rows

  -- Two different texts with one hash, the one among `xs` and the other among `ys`.
  abbrev pub Collision : List String → List String → Type 0
  Collision xs ys =
      (a b : String) × (member a xs ≡ true) × (member b ys ≡ true) × (a ≢ b) × (sha256 a ≡ sha256 b)

  later-Collision :
      (x y : String) (xs ys : List String) → Collision xs ys → Collision (x ∷ xs) (y ∷ ys)
  unfolding member
  later-Collision x y xs ys (a, b, m, n, differ, same) =
      (a, b, ground (arith, m), ground (arith, n), differ, same)

  -- Row by row, the same canonical payload.
  abbrev pub SamePayloads : List AuditRow → List AuditRow → Type 0
  SamePayloads [] [] = Unit
  SamePayloads (row ∷ rows) (row' ∷ rows') =
      (stable_stringify (payload_or_empty (value_of row))
        ≡ stable_stringify (payload_or_empty (value_of row')))
      × SamePayloads rows rows'
  SamePayloads _ _ = ⊥

  same_hash :
      (prev prev' : String) (p p' : Json)
      → count prev ≡ count prev'
      → compute_audit_hash sha256 prev p ≡ compute_audit_hash sha256 prev' p'
      → ((prev ≡ prev')
          × (stable_stringify (payload_or_empty p) ≡ stable_stringify (payload_or_empty p')))
        ⊎ ((String.◌++◌ prev (stable_stringify (payload_or_empty p))
              ≢ String.◌++◌ prev' (stable_stringify (payload_or_empty p')))
            × (sha256 (String.◌++◌ prev (stable_stringify (payload_or_empty p)))
                ≡ sha256 (String.◌++◌ prev' (stable_stringify (payload_or_empty p')))))
  unfolding compute_audit_hash
  same_hash prev prev' p p' len h =
      let s : String = String.◌++◌ prev (stable_stringify (payload_or_empty p)) in
      let t : String = String.◌++◌ prev' (stable_stringify (payload_or_empty p')) in
      elim (Bool-cases (s == t)) [
        | inl same ↦ inl (append_inj ((eq_iff s t).0 same) len)
        | inr differ ↦ inr (λ e. cc (differ, (eq_iff s t).1 e), h)
      ]

  module _ (width : ℕ) (digest : (s : String) → count (sha256 s) ≡ width) where
    digest-width : (prev : String) (p : Json) → count (compute_audit_hash sha256 prev p) ≡ width
    unfolding compute_audit_hash
    digest-width prev p = digest _

    agree_or_collide :
        (prev prev' : String) (rows rows' : List AuditRow)
        → count prev ≡ count prev'
        → length rows ≡ length rows'
        → verify_from sha256 parse_json prev rows ≡ intact
        → verify_from sha256 parse_json prev' rows' ≡ intact
        → tip prev rows ≡ tip prev' rows'
        → ((prev ≡ prev') × SamePayloads rows rows')
          ⊎ Collision (hashed_texts prev rows) (hashed_texts prev' rows')
    unfolding hashed_texts member
    agree_or_collide prev prev' [] [] c n v v' t = inl (t, tt)
    agree_or_collide prev prev' [] (row' ∷ rows') c n v v' t = absurd (omega arith)
    agree_or_collide prev prev' (row ∷ rows) [] c n v v' t = absurd (omega arith)
    agree_or_collide prev prev' (row ∷ rows) (row' ∷ rows') c n v v' t =
        let (l, w) = verify-head prev row rows v in
        let (l', w') = verify-head prev' row' rows' v' in
        let widths : count row.hash ≡ count row'.hash =
          ap count l.hashed
          ∙ digest-width prev (value_of row)
          ∙ sym (ap count l'.hashed ∙ digest-width prev' (value_of row')) in
        elim (agree_or_collide row.hash row'.hash rows rows' widths (omega arith) w w' t) [
          | inr clash ↦ inr (later-Collision _ _ _ _ clash)
          | inl (hashes, rest) ↦
              elim (same_hash prev prev' (value_of row) (value_of row') c
                (sym l.hashed ∙ hashes ∙ l'.hashed)) [
                  | inl (prevs, texts) ↦ inl (prevs, (texts, rest))
                  | inr (differ, same) ↦ inr (
                      (
                        String.◌++◌ prev (stable_stringify (payload_or_empty (value_of row))),
                        String.◌++◌ prev' (stable_stringify (payload_or_empty (value_of row'))),
                        member-first _ (hashed_texts row.hash rows),
                        member-first _ (hashed_texts row'.hash rows'),
                        differ,
                        same,
                      ))
                ]
        ]

    -- Two intact logs of one length that end in one hash carry, row by row, payloads with one canonical
    -- form, or two different texts that were hashed for them, one in each log, have one hash: the hash
    -- values have one width.
    pub verify_tamper_evident :
        (rows rows' : List AuditRow)
        → length rows ≡ length rows'
        → verify_from sha256 parse_json "" rows ≡ intact
        → verify_from sha256 parse_json "" rows' ≡ intact
        → tip "" rows ≡ tip "" rows'
        → SamePayloads rows rows' ⊎ Collision (hashed_texts "" rows) (hashed_texts "" rows')
    verify_tamper_evident rows rows' n v v' t =
        elim (agree_or_collide "" "" rows rows' refl n v v' t) [
          | inl (_, same) ↦ inl same
          | inr clash ↦ inr clash
        ]
