-- ===== src/Lib.antt =====
-- A model of assurance-toto: a bridge that turns chat messages and HTTP requests into typed commands of
-- an insurance company and carries them out, and the runtime of the agents that talk to it.
--
-- The parts and their files
--   Prelude       numbers, lists, texts and association lists that the parts share
--   Json          JSON values and the two printers; `stable_stringify` is `stableStringify`
--   Commands      buzz-hermes-bridge/src/commands/schemas.ts: commands, schemas, `validateCommand`
--   Policy        buzz-hermes-bridge/src/policy/policy.ts: who may do what, with each reason's code
--   Rows, Repository
--                 buzz-hermes-bridge/src/db/repository.ts: rows, the interface, the SQL statements, and
--                 (Repository/Memory) the store in memory that answers a statement by its text,
--                 and (Repository/Transaction) the transactions on Postgres
--   Audit         buzz-hermes-bridge/src/audit.ts: the hash chain, over any repository
--   Identity      buzz-hermes-bridge/src/identity: keys, and events that are signed for a command
--   Collab        buzz-hermes-bridge/src/collab: the adapter of the Buzz relay and the one in memory
--   Dlq           buzz-hermes-bridge/src/dlq.ts: the dead-letter queue, in memory and (Dlq/Redis) over a
--                 stream of Redis
--   Exec          results, thrown errors and `catch`, as actions on a state, and the rules for what an
--                 action keeps (Exec/Keeps), preserves (Exec/Preserves) and returns (Exec/Returns)
--   Pipeline      buzz-hermes-bridge/src/pipeline.ts: `processInboundCommand`. Checks holds its steps 1
--                 to 4 (`admit`), Execution its steps 5 to 8 (`perform`), Effects the business effects
--   Spec          the abstract machine: steps on the books (consumed commands, ledger, kill-switch)
--   Dashboard     buzz-hermes-bridge/src/dashboard/dashboard.ts: the cockpit page, with the snapshot of
--                 db/repository.ts that it shows
--   Http          buzz-hermes-bridge/src/http/server.ts: the POST handlers, and (Http/History) any
--                 sequence of messages and requests. A decision that runs a settlement writes the
--                 outcome to the row that the repository returned, which the store in memory keeps
--   Agent         agents/_runtime/src: the cached kill-switch, the risk scores, the settlement tool, the
--                 loop of one task, the client of the language model and the HTTP server
--   Tests         a small company on which the model runs
--
-- How they interact. A request reaches `process_inbound_command` as an `Envelope`; the content is
-- parsed and validated, the author's role is resolved, the policy decides on what the repository reads,
-- and an admitted command is marked, audited, carried out and answered. The state is a `World`: the
-- store, the dead-letter queue and the adapter. The pipeline is modelled over any `Repository`; what it
-- relies on is `ReadsKeep` (Repository/Laws), which the store in memory satisfies.
--
-- Conventions. An amount is a count of hundredths of a euro, and other JavaScript numbers are hundredths
-- as well; the amount that an agent proposes to the settlement tool is finer, a count of units of which
-- an even number makes a cent. An asynchronous function is an action of a state that returns or throws;
-- one request runs to its end before the next one starts. A time stamp and a random UUID are values of
-- the request.
--
-- Loops. Every loop is structural recursion on a list, and the loop of an agent's task is recursion on
-- its own limit of six iterations, so that no fuel is needed.
--
-- Parameters: Ajv and its formats, zod, SHA-256, `JSON.parse`, NIP-19 and the Schnorr check, the
-- language model, the anonymiser and its patterns, the HTTP interface of the relay, the commands of
-- ioredis on a stream, the pool of connections to Postgres, and the formatters of numbers and dates.
--
-- Not modelled: Postgres and the relay themselves, metrics and logs, configuration and process start,
-- the GET handlers of the bridge, the read-only tools of the agents, their skills and their anonymiser,
-- and requests that interleave. `getSchema` finds a schema by its exact name; the general repository has
-- no failure of BEGIN or COMMIT, which Repository/Transaction has; what an agent embeds and inserts to
-- remember a task is one action of its dependencies.
mod Prelude
pub mod Json
pub mod Commands
pub mod Rows
pub mod Policy
pub mod Exec
pub mod Repository
pub mod Audit
pub mod Identity
pub mod Dlq
pub mod Pipeline
pub mod Spec
pub mod Collab
pub mod Dashboard
pub mod Http
pub mod Agent
mod Tests
