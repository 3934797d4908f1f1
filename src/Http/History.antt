-- ===== src/Http/History.antt =====
-- A history of requests on the store in memory (buzz-hermes-bridge/src/pipeline.ts, http/server.ts):
-- messages from the channel and POST requests, one after the other, each with its own time and ids.
pub mod Refines
pub mod Growth
use assurance_toto.Prelude.{String, Bool, Option, List, [], ◌∷◌}
use assurance_toto.Identity.{SignedEvent}
use assurance_toto.Repository.Memory.{MemoryState}
use assurance_toto.Pipeline.{process_inbound_command}
use assurance_toto.Pipeline.Types.{Deps, World, Envelope}
use assurance_toto.Pipeline.InMemory.{in_memory}
use assurance_toto.Http.{
  CommandBody, DecideBody, KillswitchBody, ApprobationBody, post_commands, post_decide,
  post_approvals, post_killswitch,
}

-- What the clock and `randomUUID` give to one request.
pub record Moment : Type 0 where
  pub now : String
  pub fresh_id : String
  pub local_event_id : String
  pub uuid : String

pub data Request : Type 0 where
  message : Envelope → Request
  commands : (require_signed : Bool) → Option CommandBody → Request
  approvals : Option ApprobationBody → Request
  decide : (html : Bool) (correlation_id : String) → Option DecideBody → Request
  killswitch : (html : Bool) → Option KillswitchBody → Request

module _ {P : Type 0} (deps : Deps MemoryState P) (verify_event : SignedEvent → Option Bool) where
  abbrev pub at_moment : Moment → Deps MemoryState P
  at_moment m =
      in_memory
        (record deps { now = m.now; fresh_id = m.fresh_id; local_event_id = m.local_event_id })

  -- The world after one request.
  abbrev pub serve : Moment → Request → World MemoryState P → World MemoryState P
  serve m (message env) w = (process_inbound_command (at_moment m) env w).1
  serve m (commands require_signed body) w =
      (post_commands (at_moment m) verify_event m.uuid require_signed body w).1
  serve m (approvals body) w = (post_approvals (at_moment m) verify_event m.uuid body w).1
  serve m (decide html c body) w = (post_decide (at_moment m) verify_event m.uuid html c body w).1
  serve m (killswitch html body) w =
      (post_killswitch (at_moment m) verify_event m.uuid html body w).1

  abbrev pub serve_all : List (Moment × Request) → World MemoryState P → World MemoryState P
  serve_all [] w = w
  serve_all ((m, r) ∷ rest) w = serve_all rest (serve m r w)
