-- ===== src/Link/Action.antt =====
-- The state that a request of the service works on, and the monad of its methods.
use linkpulse_link.Base.{◌≡◌, refl, List}
use linkpulse_link.Base.Text.{Text}
use linkpulse_link.Link.{Error, Result, ok, err, hangs}

-- `log.WarnContext` calls of the service, with the code that they name.
pub data Warning : Type 0 where
  cache_not_read cache_not_warmed : Text → Warning

pub record World (R K G : Type 0) : Type 0 where
  pub repo : R
  pub cache : K
  pub ids : G
  pub warnings : List Warning

-- What a method wrote before an error stays written.
abbrev pub Action : Type 0 → Type 0 → Type 0
Action S A = S → Result A × S

module _ {S A B : Type 0} where
  abbrev pub continue : Result A → (A → Action S B) → Action S B
  continue (ok a) f s = f a s
  continue (err e) f s = (err e, s)
  continue hangs f s = (hangs, s)

  infixl 5 ◌>>=◌
  abbrev pub ◌>>=◌ : Action S A → (A → Action S B) → Action S B
  ◌>>=◌ m f s = continue (m s).0 f (m s).1

module _ {S B : Type 0} where
  infixl 5 ◌>>◌
  abbrev pub ◌>>◌ : Action S (Unit {0}) → Action S B → Action S B
  m >> n = m >>= λ _. n

module _ {S A : Type 0} where
  abbrev pub pure : A → Action S A
  pure a s = (ok a, s)

  abbrev pub raise : Error → Action S A
  raise e s = (err e, s)

  abbrev pub lift : Result A → Action S A
  lift r s = (r, s)

-- A chain that succeeds has succeeded at its first step.
module _ {S A B : Type 0} where
  pub continue-eq-ok :
      (r : Result A) (f : A → Action S B) (s : S) {b : B}
      → (continue r f s).0 ≡ ok b
      → (a : A) × (r ≡ ok a) × ((f a s).0 ≡ ok b)
  continue-eq-ok (ok a) f s e = (a, refl, e)
  continue-eq-ok (err x) f s e = cc
  continue-eq-ok hangs f s e = cc

  -- What holds of both ways on holds of the chain.
  pub continue-elim :
      (P : Result B × S → Type 0) (r : Result A) (f : A → Action S B) (s : S)
      → ((a : A) → r ≡ ok a → P (f a s))
      → ((e : Error) → r ≡ err e → P (err e, s))
      → (r ≡ hangs → P (hangs, s))
      → P (continue r f s)
  continue-elim P (ok a) f s on_ok on_err on_hangs = on_ok a refl
  continue-elim P (err e) f s on_ok on_err on_hangs = on_err e refl
  continue-elim P hangs f s on_ok on_err on_hangs = on_hangs refl

-- Two chains over different states that start with the same result.
module _ {S S' A B : Type 0} where
  pub continue-pair :
      (Q : Result B × S → Result B × S' → Type 0) (r : Result A) (f : A → Action S B)
      (f' : A → Action S' B) (s : S) (s' : S')
      → ((a : A) → Q (f a s) (f' a s'))
      → ((x : Result B) → Q (x, s) (x, s'))
      → Q (continue r f s) (continue r f' s')
  continue-pair Q (ok a) f f' s s' on_ok on_stop = on_ok a
  continue-pair Q (err e) f f' s s' on_ok on_stop = on_stop (err e)
  continue-pair Q hangs f f' s s' on_ok on_stop = on_stop hangs
