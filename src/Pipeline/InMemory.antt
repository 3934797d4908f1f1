-- ===== src/Pipeline/InMemory.antt =====
-- `admit` of buzz-hermes-bridge/src/pipeline.ts on the store in memory: what it has checked of the
-- state of the store when it lets a command through.
use assurance_toto.Prelude.{
  String, true, false, not, ◌&&◌, Option, none, ◌≡◌, refl, member, lookup, Bool-cases, inl, inr,
  if◌then◌else◌,
}
use assurance_toto.Json.{Json}
use assurance_toto.Commands.{invalid, valid, Validated, Command, claim_settlement_approve}
use assurance_toto.Policy.{Role, PolicyContext, evaluate, is_locked, is_deactivate}
use assurance_toto.Exec.{ok, ◌>>=◌}
use assurance_toto.Exec.Returns.{Returns-throw, Returns, Returns-pure, Returns-bind}
use assurance_toto.Rows.{SinistreRow, KillSwitchRow}
use assurance_toto.Repository.Memory.{MemoryState, memory_repository}
use assurance_toto.Pipeline.Types.{
  resolve_role, author_hex, Deps, World, Envelope, PipelineResult, on_db, command_id_of_env,
  is_claim, claim_id_of,
}
use assurance_toto.Pipeline.Checks.{
  by_validity, admit, unless_locked, check_author, check_fresh, Admission, early, admitted,
  check_policy, decided, context, find_claim, refuse,
}

-- The pipeline's dependencies, with the repository in memory.
abbrev pub in_memory : {P : Type 0} → Deps MemoryState P → Deps MemoryState P
in_memory deps = record deps { repo = memory_repository deps.now }

-- The claim that the context holds for a command.
abbrev pub claim_row : Command → MemoryState → Option SinistreRow
claim_row cmd st = if is_claim cmd then lookup (claim_id_of cmd) st.sinistres else none

abbrev IsEarly : Admission → Type 0
IsEarly (early r) = Unit
IsEarly (admitted cmd role) = ⊥

module _ {P : Type 0} (deps : Deps MemoryState P) (env : Envelope) (c : String) where
  module _ (w : World MemoryState P) where
    -- What the store held when the command was let through.
    pub record Checked (cmd : Command) (role : Role) : Type 0 where
      pub fresh : member (command_id_of_env (in_memory deps) env) w.db.consumed ≡ false
      pub unlocked : (is_locked w.db.kill_switch && not (is_deactivate cmd)) ≡ false
      pub policy_allowed :
          (evaluate cmd
            (context (in_memory deps) env c w.db.kill_switch (claim_row cmd w.db) false)
            role).allowed
          ≡ true

  refuse-IsEarly :
      (action : String) (p : Json) (r : PipelineResult)
      → Returns IsEarly (refuse (in_memory deps) env c action p r)
  refuse-IsEarly action p r = Returns-bind _ _ (λ u. Returns-pure _ tt)

  find_claim-memory :
      (cmd : Command) (w : World MemoryState P)
      → find_claim (in_memory deps) env c cmd w ≡ (ok (claim_row cmd w.db), w)
  unfolding on_db
  find_claim-memory (claim_settlement_approve _ _ _ _ _) w = refl
  find_claim-memory _ w = refl

  pub check_policy-memory :
      (cmd : Command) (role : Role) (k : Option KillSwitchRow) (w : World MemoryState P)
      → check_policy (in_memory deps) env c cmd role k w
        ≡ decided
            (in_memory deps)
            env
            c
            cmd
            role
            (evaluate cmd
              (context
                (in_memory deps)
                env
                c
                k
                (claim_row cmd w.db)
                (member (command_id_of_env (in_memory deps) env) w.db.consumed))
              role)
            w
  unfolding check_policy ◌>>=◌ on_db
  check_policy-memory (claim_settlement_approve _ _ _ _ _) role k w = refl
  check_policy-memory _ role k w = refl

  module _ (cmd : Command) (role : Role) (w : World MemoryState P) where
    decided-memory :
        (cmd' : Command) (role' : Role) (ctx : PolicyContext)
        → (decided (in_memory deps) env c cmd' role' (evaluate cmd' ctx role') w).0
          ≡ ok (admitted cmd role)
        → (cmd ≡ cmd') × (role ≡ role') × ((evaluate cmd' ctx role').allowed ≡ true)
    decided-memory cmd' role' ctx e = elim (Bool-cases (evaluate cmd' ctx role').allowed) [
      | inl allowed ↦ let p = rw allowed at e in (cc (p), cc (p), allowed)
      | inr refused ↦
          let p = rw refused at e in absurd ((refuse-IsEarly _ _ _).at w (admitted cmd role) p)
    ]

    unless_locked-memory :
        (cmd' : Command) (role' : Role)
        → member (command_id_of_env (in_memory deps) env) w.db.consumed ≡ false
        → (unless_locked (in_memory deps) env c cmd' role' w.db.kill_switch w).0
          ≡ ok (admitted cmd role)
        → Checked w cmd role
    unless_locked-memory cmd' role' fresh e =
        elim (Bool-cases (is_locked w.db.kill_switch && not (is_deactivate cmd'))) [
          | inl locked ↦
              let p = rw locked at e in
              absurd
                ((Returns-bind {Q = IsEarly} _ _ (λ u. Returns-throw _)).at w (admitted cmd role) p)
          | inr unlocked ↦
              let p =
                rw (unlocked, check_policy-memory cmd' role' w.db.kill_switch w, fresh) at e in
              let (same, same_role, allowed) = decided-memory cmd' role' _ p in
              record {
                fresh = fresh;
                unlocked = rw same unlocked;
                policy_allowed = rw (same, same_role) allowed;
              }
        ]

    check_author-memory :
        (cmd' : Command)
        → member (command_id_of_env (in_memory deps) env) w.db.consumed ≡ false
        → (check_author (in_memory deps) env c cmd' w).0 ≡ ok (admitted cmd role)
        → Checked w cmd role
    unfolding check_author ◌>>=◌ on_db
    check_author-memory cmd' fresh e =
        elim (Bool-cases
          (not env.signed && member (author_hex (in_memory deps) env) deps.ceo_pubkeys_hex)) [
            | inl forged ↦
                let p = rw forged at e in absurd ((refuse-IsEarly _ _ _).at w (admitted cmd role) p)
            | inr unforged ↦
                unless_locked-memory cmd' (resolve_role (in_memory deps) env) fresh
                  (rw unforged at e)
          ]

    check_fresh-memory :
        (cmd' : Command)
        → (check_fresh (in_memory deps) env c cmd' w).0 ≡ ok (admitted cmd role)
        → Checked w cmd role
    unfolding check_fresh ◌>>=◌ on_db
    check_fresh-memory cmd' e =
        elim (Bool-cases (member (command_id_of_env (in_memory deps) env) w.db.consumed)) [
          | inl old ↦
              let p = rw old at e in absurd ((refuse-IsEarly _ _ _).at w (admitted cmd role) p)
          | inr fresh ↦ check_author-memory cmd' fresh (rw fresh at e)
        ]

    by_validity-memory :
        (v : Validated)
        → (by_validity (in_memory deps) env c v w).0 ≡ ok (admitted cmd role)
        → Checked w cmd role
    by_validity-memory (valid cmd' id) e = check_fresh-memory cmd' e
    by_validity-memory (invalid errors) e =
        absurd ((refuse-IsEarly _ _ _).at w (admitted cmd role) e)

    -- On the store in memory a command passes `admit` only if it was not consumed, the kill-switch is
    -- off or the command turns it off, and the policy allows it on the claim that the store holds.
    pub admit-Checked :
        (admit (in_memory deps) env c w).0 ≡ ok (admitted cmd role) → Checked w cmd role
    unfolding admit
    admit-Checked e = by_validity-memory _ e
