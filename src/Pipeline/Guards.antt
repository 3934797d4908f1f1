-- ===== src/Pipeline/Guards.antt =====
-- The two guards of `processInboundCommand` (buzz-hermes-bridge/src/pipeline.ts) that the state of the
-- store decides, on the store in memory and with any adapter: idempotence and the kill-switch.
use assurance_toto.Prelude.{String, true, false, ◌≡◌, arith, member}
use assurance_toto.Commands.{Command, validate_command, valid}
use assurance_toto.Policy.{is_locked, is_deactivate}
use assurance_toto.Repository.Memory.{MemoryState}
use assurance_toto.Repository.Memory.Views.{business, memory-ReadsKeep}
use assurance_toto.Pipeline.{process_inbound_command}
use assurance_toto.Pipeline.Types.{Deps, World, Envelope, command_id_of_env, parse_content}
use assurance_toto.Pipeline.Authority.{Authorised, admit-IsSound}
use assurance_toto.Pipeline.Checks.{admitted}
use assurance_toto.Pipeline.InMemory.{in_memory, admit-Checked}
use assurance_toto.Pipeline.Safety.{Harmless, process-unadmitted}

module _ {P : Type 0} (deps : Deps MemoryState P) (env : Envelope) (w : World MemoryState P) where
  -- A command whose content was consumed before executes nothing and leaves the claims, the ledger,
  -- the approvals, the kill-switch and the consumed commands as they were.
  pub process-consumed :
      member (command_id_of_env (in_memory deps) env) w.db.consumed ≡ true
      → Harmless business
          (in_memory deps)
          (memory-ReadsKeep deps.now)
          w
          (process_inbound_command (in_memory deps) env w)
  process-consumed old =
      process-unadmitted business (in_memory deps) (memory-ReadsKeep deps.now) env w λ cmd role e.
        let checked = admit-Checked deps env _ cmd role w e in
        let fresh = checked.fresh in cc (old, fresh)

  -- While the kill-switch is on, a valid command that does not turn it off executes nothing and leaves
  -- all of the store but the audit log as it was, whoever sends it.
  pub process-locked :
      (cmd : Command) (id : String)
      → validate_command deps.schema_errors (parse_content (in_memory deps) env.content)
        ≡ valid cmd id
      → is_locked w.db.kill_switch ≡ true
      → is_deactivate cmd ≡ false
      → Harmless business
          (in_memory deps)
          (memory-ReadsKeep deps.now)
          w
          (process_inbound_command (in_memory deps) env w)
  process-locked cmd id v on other =
      process-unadmitted business (in_memory deps) (memory-ReadsKeep deps.now) env w λ cmd' role e.
        let checked = admit-Checked deps env _ cmd' role w e in
        let sound : Authorised (in_memory deps) env cmd' role =
          (admit-IsSound (in_memory deps) env _).at w (admitted cmd' role) e in
        let validated = sound.validated in
        let same : cmd ≡ cmd' = cc (v, validated) in
        let unlocked = checked.unlocked in ground (arith, on, other, same, unlocked)
