-- ===== src/Agent/Server.antt =====
-- The HTTP server of an agent (agents/_runtime/src/server.ts): the body of POST /task, and its answer and
-- that of GET /readyz.
use assurance_toto.Exec.{catch, ◌>>=◌, Exec, pure}
use Prim.Native.String.{count}
use assurance_toto.Prelude.{
  ℕ, zero, suc, String, Bool, true, false, not, ◌&&◌, ◌||◌, Option, none, some, List, [], ◌∷◌, code,
  nat_eq, ltb, between, is_hex, trim, take_chars, if◌then◌else◌,
}
use assurance_toto.Json.{Json, str, obj, get}
use assurance_toto.Agent.Task.{TaskInput, AgentDeps, TaskResult, run_task}

-- A text that has one character of each class, in order.
unfoldable pub match_classes : List (ℕ → Bool) → String → Bool
match_classes [] String.[] = true
match_classes [] (String.◌∷◌ c s) = false
match_classes (p ∷ ps) String.[] = false
match_classes (p ∷ ps) (String.◌∷◌ c s) = p (code c) && match_classes ps s

abbrev times : ℕ → (ℕ → Bool) → List (ℕ → Bool) → List (ℕ → Bool)
times zero p ps = ps
times (suc n) p ps = p ∷ times n p ps

abbrev is_dash : ℕ → Bool
is_dash c = nat_eq c b'-'

abbrev is_version : ℕ → Bool
is_version c = between b'1' b'8' c

abbrev is_variant : ℕ → Bool
is_variant c =
    nat_eq c b'8'
    || nat_eq c b'9'
    || nat_eq c b'a'
    || nat_eq c b'b'
    || nat_eq c b'A'
    || nat_eq c b'B'

-- `UUID_RE`
unfoldable pub is_uuid : String → Bool
unfolding match_classes
is_uuid s =
    match_classes
      (times 8 is_hex (
        is_dash
        ∷ times 4 is_hex (
            is_dash
            ∷ is_version
            ∷ times 3 is_hex
                (is_dash ∷ is_variant ∷ times 3 is_hex (is_dash ∷ times 12 is_hex [])))))
      s

-- `parseTaskBody`: a value, or the error.
pub data TaskBody : Type 0 where
  accepted : TaskInput → TaskBody
  refused : (error : String) → TaskBody

-- A text that is not blank and has at most `max` characters.
abbrev pub fits_in : ℕ → String → Bool
fits_in max s = not (nat_eq (count (trim s)) 0) && not (ltb max (count s))

abbrev pub task_of : String → String → Option String → TaskBody
task_of title description correlation_id = accepted (record {
  title = take_chars 500 (trim title);
  description = take_chars 8000 (trim description);
  correlation_id = correlation_id;
})

abbrev pub with_correlation : String → String → Option Json → TaskBody
with_correlation title description none = task_of title description none
with_correlation title description (some (str c)) =
    if is_uuid c
    then task_of title description (some c)
    else refused "'correlation_id' must be a UUID"
with_correlation title description (some v) = refused "'correlation_id' must be a UUID"

abbrev pub with_description : String → Option Json → Option Json → TaskBody
with_description title (some (str d)) correlation_id =
    if fits_in 8000 d
    then with_correlation title d correlation_id
    else refused "'description' required (string ≤ 8000)"
with_description title _ correlation_id = refused "'description' required (string ≤ 8000)"

abbrev pub with_title : Option Json → Option Json → Option Json → TaskBody
with_title (some (str t)) description correlation_id =
    if fits_in 500 t
    then with_description t description correlation_id
    else refused "'title' required (string ≤ 500)"
with_title _ description correlation_id = refused "'title' required (string ≤ 500)"

unfoldable pub parse_task_body : Json → TaskBody
unfolding is_uuid trim take_chars
parse_task_body (obj fs) =
    with_title (get "title" (obj fs)) (get "description" (obj fs)) (get "correlation_id" (obj fs))
parse_task_body _ = refused "body non-objet"

-- An answer: its code, and what it carries.
pub data TaskAnswer : Type 0 where
  bad_body : (detail : String) → TaskAnswer
  ended : (code : ℕ) (result : TaskResult) → TaskAnswer

pub record Readiness : Type 0 where
  pub http_code : ℕ
  pub pg : Bool
  pub ollama : Bool

module _ {W : Type 0} (deps : AgentDeps W) where
  abbrev answer_of : TaskResult → TaskAnswer
  answer_of result = ended (if result.stopped_by_kill_switch then 409 else 200) result

  abbrev run_body : TaskBody → Exec W TaskAnswer
  run_body (refused error) = pure (bad_body error)
  run_body (accepted task) = run_task deps task >>= λ result. pure (answer_of result)

  -- POST /task
  unfoldable pub post_task : Json → Exec W TaskAnswer
  unfolding parse_task_body run_task
  post_task body = run_body (parse_task_body body)

module _ {W : Type 0} (embed : String → Exec W (Option (List Json))) (ping : Exec W Bool) where
  abbrev is_found : Option (List Json) → Bool
  is_found none = false
  is_found (some v) = true

  abbrev readiness : Bool → Bool → Readiness
  readiness pg ollama = record {
    http_code = if pg && ollama then 200 else 503;
    pg = pg;
    ollama = ollama;
  }

  -- GET /readyz
  unfoldable pub get_readyz : Exec W Readiness
  get_readyz = do
    ollama ← catch (embed "ping" >>= λ v. pure (is_found v)) (λ err. pure false)
    pg ← ping
    pure (readiness pg ollama)
