-- ===== src/Exec/Preserves.antt =====
-- Actions that keep an invariant of the store, whether they return or throw: one rule for each way to
-- build an action.
use assurance_toto.Prelude.{Bool, true, false, subst, sym, if◌then◌else◌}
use assurance_toto.Exec.{Thrown, Result, ok, thrown, Exec, pure, throw, catch, continue, ◌>>=◌}
use assurance_toto.Exec.Keeps.{Keeps}

pub record Preserves {S A : Type 0} (invariant : S → Type 0) (m : Exec S A) : Type 0 where
  pub at : (s : S) → invariant s → invariant (m s).1

module _ {S A : Type 0} {I : S → Type 0} where
  pub Preserves-pure : (a : A) → Preserves I (pure a)
  Preserves-pure a = record { at = λ s i. i }

  pub Preserves-throw : (e : Thrown) → Preserves I (throw {A = A} e)
  Preserves-throw e = record { at = λ s i. i }

  pub Preserves-if :
      (b : Bool) (m n : Exec S A) → Preserves I m → Preserves I n → Preserves I (if b then m else n)
  Preserves-if true m n pm pn = pm
  Preserves-if false m n pm pn = pn

  handled :
      (h : Thrown → Exec S A) (r : Result A) (s : S)
      → ((e : Thrown) → Preserves I (h e))
      → I s
      → I (catch (λ t. (r, t)) h s).1
  unfolding catch
  handled h (ok a) s p i = i
  handled h (thrown e) s p i = (p e).at s i

  pub Preserves-catch :
      (m : Exec S A) (h : Thrown → Exec S A)
      → Preserves I m
      → ((e : Thrown) → Preserves I (h e))
      → Preserves I (catch m h)
  unfolding catch
  Preserves-catch m h pm ph = record {
    at = λ s i. let first = pm.at s i in let (r, t) = m s in handled h r t ph first;
  }

module _ {S A B : Type 0} {I : S → Type 0} where
  continued :
      (f : A → Exec S B) (r : Result A) (s : S)
      → ((a : A) → Preserves I (f a))
      → I s
      → I (continue f (r, s)).1
  continued f (ok a) s p i = (p a).at s i
  continued f (thrown e) s p i = i

  pub Preserves-bind :
      (m : Exec S A) (f : A → Exec S B)
      → Preserves I m
      → ((a : A) → Preserves I (f a))
      → Preserves I (m >>= f)
  unfolding ◌>>=◌
  Preserves-bind m f pm pf = record {
    at = λ s i. let first = pm.at s i in let (r, t) = m s in continued f r t pf first;
  }

module _ {S V A : Type 0} {view : S → V} (I : V → Type 0) where
  -- What leaves the view that the invariant is about keeps the invariant.
  pub Preserves-view : (m : Exec S A) → Keeps view m → Preserves (λ s. I (view s)) m
  Preserves-view m k = record { at = λ s i. subst I (sym (k.at s)) i }

pub ruleset preserves_rules =
    (Preserves-pure, Preserves-throw, Preserves-if, Preserves-catch, Preserves-bind)
