-- ===== src/Exec.antt =====
-- Asynchronous methods that change a store and may throw. What was written before a throw stays
-- written, so the store comes back beside the error; an `await` is a bind, in the source's order.
pub mod Keeps
pub mod Preserves
pub mod Returns
use assurance_toto.Prelude.{String, Bool, ◌≡◌, refl}

-- `PipelineError.code`
pub data ErrorCode : Type 0 where
  schema_invalid signature_invalid policy_denied idempotence_consumed killswitch_blocked
        db_unavailable collab_unavailable effect_failed :
      ErrorCode

-- A `PipelineError`, or any other `Error`, with its message.
pub data Thrown : Type 0 where
  pipeline_error : (code : ErrorCode) (message : String) (retryable : Bool) → Thrown
  other_error : (message : String) → Thrown

pub data Result {ℓ} (A : Type ℓ) : Type ℓ where
  ok : A → Result A
  thrown : Thrown → Result A

abbrev pub Exec {ℓ} : Type ℓ → Type ℓ → Type ℓ
Exec S A = S → Result A × S

module _ {ℓ} {S A : Type ℓ} where
  abbrev pub pure : A → Exec S A
  pure a s = (ok a, s)

  abbrev pub throw : Thrown → Exec S A
  throw e s = (thrown e, s)

  -- `catch (e) { return h(e) }`
  abbrev pub handle : (Thrown → Exec S A) → Result A × S → Result A × S
  handle h (ok a, s) = (ok a, s)
  handle h (thrown e, s) = h e s

  unfoldable pub catch : Exec S A → (Thrown → Exec S A) → Exec S A
  catch m h s = handle h (m s)

module _ {ℓ} {S A B : Type ℓ} where
  abbrev pub continue : (A → Exec S B) → Result A × S → Result B × S
  continue f (ok a, s) = f a s
  continue f (thrown e, s) = (thrown e, s)

  infixl 10 ◌>>=◌ ◌>>◌
  unfoldable pub ◌>>=◌ : Exec S A → (A → Exec S B) → Exec S B
  ◌>>=◌ m f s = continue f (m s)

  abbrev pub ◌>>◌ : Exec S A → Exec S B → Exec S B
  m >> n = m >>= λ _. n
