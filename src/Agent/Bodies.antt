-- ===== src/Agent/Bodies.antt =====
-- The bounds of a task that POST /task accepts (agents/_runtime/src/server.ts).
use text.Mathlib.TextLemmas.{length-cons}
use assurance_toto.Agent.Task.{TaskInput}
use assurance_toto.Agent.Server.{
  with_title, fits_in, TaskBody, parse_task_body, is_uuid, accepted, with_description,
  with_correlation, refused,
}
use Prim.Native.String.{count}
use assurance_toto.Prelude.{
  ℕ, zero, suc, ◌≤◌, ◌<◌, String, true, Option, none, some, ◌≡◌, arith, trim, take_chars,
  Bool-cases, inl, inr,
}
use assurance_toto.Json.{Json, str, obj, get}

count-take_chars_le : (n : ℕ) (s : String) → count (take_chars n s) ≤ n
unfolding take_chars
count-take_chars_le zero s = omega arith
count-take_chars_le (suc n) String.[] = omega arith
count-take_chars_le (suc n) (String.◌∷◌ c s) =
    rw (length-cons c (take_chars n s)) (omega (arith, count-take_chars_le n s))

count-take_chars_pos : (n : ℕ) (s : String) → 0 < n → 0 < count s → 0 < count (take_chars n s)
unfolding take_chars
count-take_chars_pos zero s h k = absurd (omega (arith, h))
count-take_chars_pos (suc n) String.[] h k = k
count-take_chars_pos (suc n) (String.◌∷◌ c s) h k =
    rw (length-cons c (take_chars n s)) (omega arith)

abbrev IsUuid : Option String → Type 0
IsUuid none = Unit
IsUuid (some c) = is_uuid c ≡ true

-- A task as the loop may get it from outside.
pub record IsBounded (task : TaskInput) : Type 0 where
  pub title : (0 < count task.title) × (count task.title ≤ 500)
  pub description : (0 < count task.description) × (count task.description ≤ 8000)
  pub correlation_id : IsUuid task.correlation_id

abbrev pub Bounded : TaskBody → Type 0
Bounded (accepted task) = IsBounded task
Bounded (refused error) = Unit

within :
    (max : ℕ) (s : String)
    → 0 < max
    → fits_in max s ≡ true
    → (0 < count (take_chars max (trim s))) × (count (take_chars max (trim s)) ≤ max)
within max s m h =
    (count-take_chars_pos max (trim s) m (ground (arith, h)), count-take_chars_le max (trim s))

with_correlation-Bounded :
    (t d : String) (c : Option Json)
    → fits_in 500 t ≡ true
    → fits_in 8000 d ≡ true
    → Bounded (with_correlation t d c)
with_correlation-Bounded t d none h k = record {
  title = within 500 t (omega arith) h;
  description = within 8000 d (omega arith) k;
  correlation_id = tt;
}
with_correlation-Bounded t d (some (str c)) h k = elim (Bool-cases (is_uuid c)) [
  | inl u ↦ rw u (record {
    title = within 500 t (omega arith) h;
    description = within 8000 d (omega arith) k;
    correlation_id = u;
  })
  | inr u ↦ rw u tt
]
with_correlation-Bounded t d (some _) h k = tt

with_description-Bounded :
    (t : String) (d c : Option Json) → fits_in 500 t ≡ true → Bounded (with_description t d c)
with_description-Bounded t (some (str d)) c h = elim (Bool-cases (fits_in 8000 d)) [
  | inl k ↦ rw k (with_correlation-Bounded t d c h k)
  | inr k ↦ rw k tt
]
with_description-Bounded t _ c h = tt

with_title-Bounded : (t d c : Option Json) → Bounded (with_title t d c)
with_title-Bounded (some (str t)) d c = elim (Bool-cases (fits_in 500 t)) [
  | inl h ↦ rw h (with_description-Bounded t d c h)
  | inr h ↦ rw h tt
]
with_title-Bounded _ d c = tt

-- A body of POST /task is refused with an error, or gives a task whose title has 1 to 500 characters and
-- whose description has 1 to 8000, and whose correlation id, if there is one, is a UUID.
pub parse_task_body-Bounded : (body : Json) → Bounded (parse_task_body body)
unfolding parse_task_body
parse_task_body-Bounded (obj fs) =
    with_title-Bounded (get "title" (obj fs)) (get "description" (obj fs))
      (get "correlation_id" (obj fs))
parse_task_body-Bounded _ = tt
