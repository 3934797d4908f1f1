-- ===== src/Dlq/Redis.antt =====
-- `RedisDlq` of buzz-hermes-bridge/src/dlq.ts: an entry as a field list of a Redis stream. The stream
-- and `JSON.parse` are parameters.
use assurance_toto.Prelude.{
  ℕ, ◌*◌, String, Option, some, List, [], ◌∷◌, ◌++◌, map, reverse, take, lookup, insert, or_else,
  decimal, ◌≡◌, refl, ap, sym, ◌∙◌, append-nil, append_assoc, map-take-reverse, take-reverse, suc,
}
use assurance_toto.Json.{Json, str, stringify, payload_or_empty}
use assurance_toto.Rows.{Amount, eur, number_of_text, number_of_text-decimal}
use assurance_toto.Dlq.{DlqEntry, list_entries, fields_from, fields_to_object}

-- The commands of ioredis that the queue uses, on one stream.
pub record Stream (S : Type 0) : Type 0 where
  -- `XADD key * field value ...`
  pub xadd : List String → S → S
  -- `XREVRANGE key + - COUNT n`, the field list of each row
  pub xrevrange : ℕ → S → List (List String)

-- What Redis documents of them: a stream keeps what is added in order, and the reverse range gives the
-- `n` newest rows, the newest first.
pub record IsStream {S : Type 0} (redis : Stream S) (rows : S → List (List String)) : Type 0 where
  pub added : (fields : List String) (s : S) → rows (redis.xadd fields s) ≡ rows s ++ fields ∷ []
  pub newest : (n : ℕ) (s : S) → redis.xrevrange n s ≡ take n (reverse (rows s))

-- An entry as `list` gives it: the attempts are what `Number` makes of a text.
pub record ListedEntry : Type 0 where
  pub command_id : String
  pub correlation_id : String
  pub reason : String
  pub payload : Json
  pub attempts : Amount
  pub enqueued_at : String

-- The arguments of `xadd` after the key and the id.
abbrev pub to_fields : DlqEntry → List String
to_fields entry =
    "commandId"
    ∷ entry.command_id
    ∷ "correlationId"
    ∷ entry.correlation_id
    ∷ "reason"
    ∷ entry.reason
    ∷ "payload"
    ∷ stringify (payload_or_empty entry.payload)
    ∷ "attempts"
    ∷ decimal entry.attempts
    ∷ "enqueuedAt"
    ∷ entry.enqueued_at
    ∷ []

-- An entry as it should come back.
abbrev pub listed : DlqEntry → ListedEntry
listed entry = record {
  command_id = entry.command_id;
  correlation_id = entry.correlation_id;
  reason = entry.reason;
  payload = payload_or_empty entry.payload;
  attempts = eur (100 * entry.attempts);
  enqueued_at = entry.enqueued_at;
}

module _ (parse_json : String → Option Json) where
  -- `parseJsonSafe`
  abbrev pub parse_json_safe : String → Json
  parse_json_safe text = or_else (parse_json text) (str text)

  abbrev entry_of : List (String × String) → ListedEntry
  entry_of f = record {
    command_id = or_else (lookup "commandId" f) "";
    correlation_id = or_else (lookup "correlationId" f) "";
    reason = or_else (lookup "reason" f) "";
    payload = parse_json_safe (or_else (lookup "payload" f) "{}");
    attempts = number_of_text (or_else (lookup "attempts" f) "0");
    enqueued_at = or_else (lookup "enqueuedAt" f) "";
  }

  -- The `map` of `list`, on one row.
  unfoldable pub from_fields : List String → ListedEntry
  unfolding lookup fields_to_object number_of_text
  from_fields fields = entry_of (fields_to_object fields)

  from-to_fields :
      (entry : DlqEntry)
      → parse_json (stringify (payload_or_empty entry.payload))
        ≡ some (payload_or_empty entry.payload)
      → from_fields (to_fields entry) ≡ listed entry
  unfolding from_fields lookup fields_to_object fields_from insert
  from-to_fields entry reads = rw (reads, number_of_text-decimal entry.attempts) refl

  -- The payloads of some entries come back from their print.
  abbrev pub ReadBack : List DlqEntry → Type 0
  ReadBack [] = Unit
  ReadBack (entry ∷ rest) =
      (parse_json (stringify (payload_or_empty entry.payload))
        ≡ some (payload_or_empty entry.payload))
      × ReadBack rest

  from-to_fields_all :
      (entries : List DlqEntry)
      → ReadBack entries
      → map from_fields (map to_fields entries) ≡ map listed entries
  from-to_fields_all [] r = refl
  from-to_fields_all (entry ∷ rest) (r, rs) =
      rw (from-to_fields entry r, from-to_fields_all rest rs) refl

  module _ {S : Type 0} (redis : Stream S) where
    -- `RedisDlq.enqueue`
    unfoldable pub redis_enqueue : DlqEntry → S → S
    redis_enqueue entry s = redis.xadd (to_fields entry) s

    -- `RedisDlq.list`
    unfoldable pub redis_list : ℕ → S → List ListedEntry
    unfolding from_fields
    redis_list limit s = map from_fields (redis.xrevrange limit s)

    -- The queue after some failures, the first one first.
    abbrev pub enqueue_all : List DlqEntry → S → S
    unfolding redis_enqueue
    enqueue_all [] s = s
    enqueue_all (entry ∷ rest) s = enqueue_all rest (redis_enqueue entry s)

    module _ (rows : S → List (List String)) (laws : IsStream redis rows) where
      rows-enqueue_all :
          (entries : List DlqEntry) (s : S)
          → rows (enqueue_all entries s) ≡ rows s ++ map to_fields entries
      unfolding redis_enqueue
      rows-enqueue_all [] s = sym (append-nil (rows s))
      rows-enqueue_all (entry ∷ rest) s =
          rows-enqueue_all rest (redis_enqueue entry s)
          ∙ ap (λ xs. xs ++ map to_fields rest) (laws.added (to_fields entry) s)
          ∙ append_assoc (rows s) (to_fields entry ∷ []) (map to_fields rest)

      -- The queue over Redis lists what the queue in memory lists: after any entries were added to an
      -- empty stream, `list` of a limit that is not 0 gives the newest `limit` of them, newest first, each with all its fields, if
      -- their payloads come back from their print.
      pub redis_list-enqueue_all :
          (entries : List DlqEntry) (s : S) (n : ℕ)
          → rows s ≡ []
          → ReadBack entries
          → redis_list (suc n) (enqueue_all entries s) ≡ map listed (list_entries (suc n) entries)
      unfolding redis_list list_entries
      redis_list-enqueue_all entries s n empty reads =
          ap (map from_fields) (
            laws.newest (suc n) (enqueue_all entries s)
            ∙ ap (λ xs. take (suc n) (reverse xs))
                (rows-enqueue_all entries s ∙ ap (λ xs. xs ++ map to_fields entries) empty))
          ∙ map-take-reverse from_fields (suc n) (map to_fields entries)
          ∙ ap (λ xs. take (suc n) (reverse xs)) (from-to_fields_all entries reads)
          ∙ sym (map-take-reverse listed (suc n) entries)
          ∙ ap (map listed) (take-reverse (suc n) entries)
