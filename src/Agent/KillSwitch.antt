-- ===== src/Agent/KillSwitch.antt =====
-- agents/_runtime/src/security/killswitch.ts: the kill-switch as an agent sees it, with its cache.
-- The reply of the database is `none` where the query throws, and otherwise its rows; `actif` is `none`
-- where a row's column is not a Boolean. Times are milliseconds.
use assurance_toto.Prelude.{
  ℕ, ◌+◌, ◌<◌, Bool, true, false, Option, none, some, List, [], ◌∷◌, ◌≡◌, ◌≢◌, refl, ◌⊎◌, inl, inr,
  arith, ltb, if◌then◌else◌, Bool-cases,
}

pub record CacheEntry : Type 0 where
  pub value : Bool
  pub at : ℕ

-- A row of `SELECT actif FROM kill_switch WHERE id = 1`.
pub record ActifRow : Type 0 where
  pub actif : Option Bool

abbrev pub cache_limit : ℕ
cache_limit = 2_000

abbrev cached_or_on : Option CacheEntry → Bool
cached_or_on none = true
cached_or_on (some c) = c.value

abbrev is_true : Option Bool → Bool
is_true (some b) = b
is_true none = false

-- `r.rows[0]?.actif === true`
abbrev pub first_actif : List ActifRow → Bool
first_actif [] = false
first_actif (row ∷ rows) = is_true row.actif

abbrev from_read : ℕ → Option CacheEntry → Option (List ActifRow) → Bool × Option CacheEntry
from_read now cache none = (cached_or_on cache, cache)
from_read now cache (some rows) =
    (first_actif rows, some (record { value = first_actif rows; at = now }))

-- `isActive`: the answer and the new cache.
unfoldable pub is_active :
    (cache_ms now : ℕ) → Option CacheEntry → Option (List ActifRow) → Bool × Option CacheEntry
is_active cache_ms now none read = from_read now none read
is_active cache_ms now (some c) read =
    if ltb now (c.at + cache_ms) then (c.value, some c) else from_read now (some c) read

-- The rows whose first one, if there is one, does not say true.
abbrev pub LacksTrue : List ActifRow → Type 0
LacksTrue [] = Unit
LacksTrue (row ∷ rows) = row.actif ≢ some true

first_actif-LacksTrue : (rows : List ActifRow) → first_actif rows ≡ false → LacksTrue rows
first_actif-LacksTrue [] h = tt
first_actif-LacksTrue (row ∷ rows) h = λ e. cc (rw e at h)

-- An agent goes on only where the query answers and its first row does not say true, or it has no row;
-- or where the cache says off and is younger than the limit, or the query fails and the last answer
-- was off. A query that fails before any other has answered stops the agent; a row that is missing
-- does not.
pub is_active-fail_closed :
    (cache_ms now : ℕ) (cache : Option CacheEntry) (read : Option (List ActifRow))
    → (is_active cache_ms now cache read).0 ≡ false
    → ((rows : List ActifRow) × (read ≡ some rows) × LacksTrue rows)
      ⊎ ((c : CacheEntry) × (cache ≡ some c)
          × (c.value ≡ false)
          × ((now < c.at + cache_ms) ⊎ (read ≡ none)))
unfolding is_active
is_active-fail_closed ms now none (some rows) h = inl (rows, refl, first_actif-LacksTrue rows h)
is_active-fail_closed ms now (some c) none h = inr (c, refl, ground (arith, h), inr refl)
is_active-fail_closed ms now (some c) (some rows) h = elim (Bool-cases (ltb now (c.at + ms))) [
  | inl young ↦ let p = rw young at h in inr (c, refl, p, inl (ground (arith, young)))
  | inr old ↦ let p = rw old at h in inl (rows, refl, first_actif-LacksTrue rows p)
]
is_active-fail_closed ms now none none h = absurd (cc (h))
