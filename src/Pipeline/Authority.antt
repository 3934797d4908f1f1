-- ===== src/Pipeline/Authority.antt =====
-- Who can make `runPipeline` (buzz-hermes-bridge/src/pipeline.ts) act, over any repository and any
-- adapter, whatever the store holds.
use assurance_toto.Prelude.{
  String, Bool, true, false, not, ◌&&◌, Option, ◌≡◌, ◌≢◌, refl, member, Bool-cases, inl, inr,
}
use assurance_toto.Json.{Json}
use assurance_toto.Commands.{Command, validate_command, Validated, valid, invalid}
use assurance_toto.Policy.{Role, PolicyContext, evaluate, is_locked, is_deactivate}
use assurance_toto.Exec.Returns.{Returns, Returns-pure, Returns-throw, Returns-bind}
use assurance_toto.Rows.{executed, KillSwitchRow}
use assurance_toto.Pipeline.Types.{
  Deps, Envelope, PipelineResult, resolve_role, author_hex, parse_content,
}
use assurance_toto.Pipeline.Checks.{
  Admission, early, admitted, admit, by_validity, check_fresh, check_author, check_policy,
  unless_locked, unless_consumed, decided, context, refuse,
}

module _ {S P : Type 0} (deps : Deps S P) (env : Envelope) where
  -- An unsigned envelope that names a CEO key.
  abbrev pub is_forged : Bool
  is_forged = not env.signed && member (author_hex deps env) deps.ceo_pubkeys_hex

  -- What `admit` has established of a command that it lets through.
  pub record Authorised (cmd : Command) (role : Role) : Type 0 where
    pub command_id : String
    pub validated :
        validate_command deps.schema_errors (parse_content deps env.content) ≡ valid cmd command_id
    pub role_resolved : role ≡ resolve_role deps env
    pub unforged : is_forged ≡ false
    pub ctx : PolicyContext
    pub threshold_kept : ctx.threshold_eur ≡ deps.threshold_eur
    pub policy_allowed : (evaluate cmd ctx role).allowed ≡ true

  abbrev pub IsSound : Admission → Type 0
  IsSound (early result) = result.outcome ≢ executed
  IsSound (admitted cmd role) = Authorised cmd role

  module _ (c : String) where
    refuse-Returns :
        (action : String) (p : Json) (r : PipelineResult)
        → r.outcome ≢ executed
        → Returns IsSound (refuse deps env c action p r)
    refuse-Returns action p r n = Returns-bind _ _ (λ u. Returns-pure _ n)

    module _ (cmd : Command) (id : String)
        (v : validate_command deps.schema_errors (parse_content deps env.content)
          ≡ valid cmd id) where
      decided-Returns :
          (ctx : PolicyContext)
          → is_forged ≡ false
          → ctx.threshold_eur ≡ deps.threshold_eur
          → Returns IsSound (
              decided deps env c cmd
                (resolve_role deps env)
                (evaluate cmd ctx (resolve_role deps env)))
      decided-Returns ctx unforged t =
          elim (Bool-cases (evaluate cmd ctx (resolve_role deps env)).allowed) [
            | inl yes_allowed ↦ rw yes_allowed (
                Returns-pure _ (record {
                  command_id = id;
                  validated = v;
                  role_resolved = refl;
                  unforged = unforged;
                  ctx = ctx;
                  threshold_kept = t;
                  policy_allowed = yes_allowed;
                }))
            | inr refused ↦ rw refused (refuse-Returns _ _ _ (λ p. cc))
          ]

      check_policy-Returns :
          (k : Option KillSwitchRow)
          → is_forged ≡ false
          → Returns IsSound (check_policy deps env c cmd (resolve_role deps env) k)
      unfolding check_policy
      check_policy-Returns k unforged =
          Returns-bind _ _
            λ s. Returns-bind _ _ λ b. decided-Returns (context deps env c k s b) unforged refl

      unless_locked-Returns :
          (k : Option KillSwitchRow)
          → is_forged ≡ false
          → Returns IsSound (unless_locked deps env c cmd (resolve_role deps env) k)
      unless_locked-Returns k unforged =
          elim (Bool-cases (is_locked k && not (is_deactivate cmd))) [
            | inl locked ↦ rw locked (Returns-bind _ _ (λ u. Returns-throw _))
            | inr free ↦ rw free (check_policy-Returns k unforged)
          ]

      check_author-Returns : Returns IsSound (check_author deps env c cmd)
      unfolding check_author
      check_author-Returns = elim (Bool-cases is_forged) [
        | inl forged ↦ rw forged (refuse-Returns _ _ _ (λ p. cc))
        | inr unforged ↦ rw unforged (Returns-bind _ _ (λ k. unless_locked-Returns k unforged))
      ]

      unless_consumed-Returns : (b : Bool) → Returns IsSound (unless_consumed deps env c cmd b)
      unless_consumed-Returns true = refuse-Returns _ _ _ (λ p. cc)
      unless_consumed-Returns false = check_author-Returns

      check_fresh-Returns : Returns IsSound (check_fresh deps env c cmd)
      unfolding check_fresh
      check_fresh-Returns = Returns-bind _ _ unless_consumed-Returns

    by_validity-Returns :
        (v : Validated)
        → validate_command deps.schema_errors (parse_content deps env.content) ≡ v
        → Returns IsSound (by_validity deps env c v)
    by_validity-Returns (valid cmd id) e = check_fresh-Returns cmd id e
    by_validity-Returns (invalid errors) e = refuse-Returns _ _ _ (λ p. cc)

    -- Whatever the store answers, a command passes `admit` only if its content is a valid command, the
    -- envelope is no unsigned one of a CEO key, and the policy allows it to the author's role in some
    -- context with the configured threshold; an early result is never an execution.
    pub admit-IsSound : Returns IsSound (admit deps env c)
    unfolding admit
    admit-IsSound = by_validity-Returns _ refl
