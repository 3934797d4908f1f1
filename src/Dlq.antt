-- ===== src/Dlq.antt =====
-- buzz-hermes-bridge/src/dlq.ts: the dead-letter queue in memory, and the field lists of the Redis
-- stream.
pub mod Redis
use assurance_toto.Prelude.{
  ℕ, ◌-◌, String, List, [], ◌∷◌, ◌++◌, drop, length, reverse, insert, suc, zero,
}
use assurance_toto.Json.{Json}

pub record DlqEntry : Type 0 where
  pub command_id : String
  pub correlation_id : String
  pub reason : String
  pub payload : Json
  pub attempts : ℕ
  pub enqueued_at : String

-- `MemoryDlq.enqueue`
unfoldable pub enqueue : DlqEntry → List DlqEntry → List DlqEntry
enqueue entry entries = entries ++ entry ∷ []

-- `MemoryDlq.list`: `slice(-limit)`, newest first; `slice(-0)` is all of it.
unfoldable pub list_entries : ℕ → List DlqEntry → List DlqEntry
list_entries zero entries = reverse entries
list_entries (suc n) entries = reverse (drop (length entries - suc n) entries)

-- `fieldsToObject`: a later field replaces an earlier one of its name.
unfoldable pub fields_from : List (String × String) → List String → List (String × String)
fields_from out [] = out
fields_from out (k ∷ []) = out
fields_from out (k ∷ v ∷ rest) = fields_from (insert k v out) rest

unfoldable pub fields_to_object : List String → List (String × String)
unfolding fields_from
fields_to_object fields = fields_from [] fields
