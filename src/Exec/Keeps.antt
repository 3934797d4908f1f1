-- ===== src/Exec/Keeps.antt =====
-- Actions that leave a view of the store as it was, whether they return or throw: one rule for each
-- way to build an action.
use assurance_toto.Prelude.{Bool, true, false, ◌≡◌, refl, ◌∙◌, if◌then◌else◌}
use assurance_toto.Exec.{Thrown, Result, ok, thrown, Exec, pure, throw, catch, continue, ◌>>=◌}

pub record Keeps {S V A : Type 0} (view : S → V) (m : Exec S A) : Type 0 where
  pub at : (s : S) → view (m s).1 ≡ view s

module _ {S V A : Type 0} {view : S → V} where
  pub Keeps-pure : (a : A) → Keeps view (pure a)
  Keeps-pure a = record { at = λ s. refl }

  pub Keeps-throw : (e : Thrown) → Keeps view (throw {A = A} e)
  Keeps-throw e = record { at = λ s. refl }

  pub Keeps-if :
      (b : Bool) (m n : Exec S A) → Keeps view m → Keeps view n → Keeps view (if b then m else n)
  Keeps-if true m n km kn = km
  Keeps-if false m n km kn = kn

  handled :
      (h : Thrown → Exec S A) (r : Result A) (s : S)
      → ((e : Thrown) → Keeps view (h e))
      → view (catch (λ t. (r, t)) h s).1 ≡ view s
  unfolding catch
  handled h (ok a) s k = refl
  handled h (thrown e) s k = (k e).at s

  pub Keeps-catch :
      (m : Exec S A) (h : Thrown → Exec S A)
      → Keeps view m
      → ((e : Thrown) → Keeps view (h e))
      → Keeps view (catch m h)
  unfolding catch
  Keeps-catch m h km kh = record { at = λ s. let (r, t) = m s in handled h r t kh ∙ km.at s }

module _ {S V A B : Type 0} {view : S → V} where
  continued :
      (f : A → Exec S B) (r : Result A) (s : S)
      → ((a : A) → Keeps view (f a))
      → view (continue f (r, s)).1 ≡ view s
  continued f (ok a) s k = (k a).at s
  continued f (thrown e) s k = refl

  pub Keeps-bind :
      (m : Exec S A) (f : A → Exec S B)
      → Keeps view m
      → ((a : A) → Keeps view (f a))
      → Keeps view (m >>= f)
  unfolding ◌>>=◌
  Keeps-bind m f km kf = record { at = λ s. let (r, t) = m s in continued f r t kf ∙ km.at s }

pub ruleset keeps_rules = (Keeps-pure, Keeps-throw, Keeps-if, Keeps-catch, Keeps-bind)
