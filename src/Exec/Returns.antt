-- ===== src/Exec/Returns.antt =====
-- What an action can return: one rule for each way to build an action, and the run of a bind whose
-- first part returned.
use assurance_toto.Prelude.{Bool, true, false, ◌≡◌, subst, if◌then◌else◌}
use assurance_toto.Exec.{Thrown, Result, ok, thrown, Exec, pure, throw, continue, ◌>>=◌}

pub record Returns {S A : Type 0} (Q : A → Type 0) (m : Exec S A) : Type 0 where
  pub at : (s : S) (a : A) → (m s).0 ≡ ok a → Q a

module _ {S A : Type 0} {Q : A → Type 0} where
  pub Returns-pure : (a : A) → Q a → Returns Q (pure {S = S} a)
  Returns-pure a q = record { at = λ s b e. let same : a ≡ b = cc in subst Q same q }

  pub Returns-throw : (e : Thrown) → Returns Q (throw {S = S} {A = A} e)
  Returns-throw e = record { at = λ s a p. cc }

  pub Returns-if :
      (b : Bool) (m n : Exec S A) → Returns Q m → Returns Q n → Returns Q (if b then m else n)
  Returns-if true m n km kn = km
  Returns-if false m n km kn = kn

module _ {S A B : Type 0} {Q : B → Type 0} where
  continued :
      (f : A → Exec S B) (r : Result A) (s : S) (b : B)
      → ((a : A) → Returns Q (f a))
      → (continue f (r, s)).0 ≡ ok b
      → Q b
  continued f (ok a) s b k e = (k a).at s b e
  continued f (thrown t) s b k e = absurd (cc)

  pub Returns-bind :
      (m : Exec S A) (f : A → Exec S B) → ((a : A) → Returns Q (f a)) → Returns Q (m >>= f)
  unfolding ◌>>=◌
  Returns-bind m f kf = record { at = λ s b e. let (r, t) = m s in continued f r t b kf e }

module _ {S A B : Type 0} where
  continue_ok :
      (f : A → Exec S B) (r : Result A) (t : S) (a : A) → r ≡ ok a → continue f (r, t) ≡ f a t
  continue_ok f (ok b) t a e = let same : b ≡ a = cc in rw same
  continue_ok f (thrown x) t a e = absurd (cc)

  pub bind_ok :
      (m : Exec S A) (f : A → Exec S B) (s : S) (a : A) → (m s).0 ≡ ok a → (m >>= f) s ≡ f a (m s).1
  unfolding ◌>>=◌
  bind_ok m f s a e = let (r, t) = m s in continue_ok f r t a e
