-- ===== src/Repository/Memory/Views.antt =====
-- The business view of the store in memory (buzz-hermes-bridge/src/db/repository.ts): all of it but
-- the audit log. Its reads and its audit rows keep that view.
use assurance_toto.Prelude.{String, refl, []}
use assurance_toto.Repository.Laws.{ReadsKeep}
use assurance_toto.Repository.Memory.{MemoryState, memory_repository}
use assurance_toto.Repository.Memory.Statements.{answer-select_last_hash}

abbrev pub business : MemoryState → MemoryState
business st = record st { audit = [] }

pub memory-ReadsKeep : (now : String) → ReadsKeep business (memory_repository now)
memory-ReadsKeep now = record {
  find_sinistre = λ id. record { at = λ st. refl };
  is_command_consumed = λ id. record { at = λ st. refl };
  get_kill_switch = record { at = λ st. refl };
  append_audit = λ c s a payload h p. record { at = λ st. refl };
  last_hash = record { at = λ st. rw (answer-select_last_hash now st) };
  rollback = λ before after e. e;
}
