-- ===== src/Link.antt =====
-- internal/link/link.go: the domain model and its errors.
pub mod Validate
pub mod Ports
pub mod Action
pub mod Service
use linkpulse_link.Base.{Bool, true, false, not, Option, none, some, ◌≡◌, ◌⊎◌, inl, inr, refl}
use linkpulse_link.Base.Text.{Text}
use linkpulse_link.Base.Int.{ℤ, ltb_ℤ}
use linkpulse_link.Base.Word.{Int64}

-- An instant, in nanoseconds from a fixed origin.
abbrev pub Time : Type 0
Time = ℤ

-- A `time.Duration`, in nanoseconds.
abbrev pub Duration : Type 0
Duration = ℤ

-- Why a URL is refused. Each reason wraps ErrInvalidURL.
pub data Reason : Type 0 where
  empty_url too_long no_host : Reason
  unparsable : Text → Reason
  bad_scheme : Text → Reason
  blocked_host : Text → Reason

-- What failed below the domain; these wrap no sentinel error.
pub data Fault : Type 0 where
  id_generation collision insert_failed select_failed list_failed : Fault

-- ErrNotFound, ErrExpired, ErrInvalidURL, and every other error.
pub data Error : Type 0 where
  not_found expired : Error
  invalid_url : Reason → Error
  internal : Fault → Error

-- `hangs` is no Go value: the call has not returned.
pub data Result {ℓ} (A : Type ℓ) : Type ℓ where
  ok : A → Result A
  err : Error → Result A
  hangs : Result A

-- `if !passed { return failure }`
abbrev pub guard : Bool → Error → Result (Unit {0})
guard false failure = err failure
guard true failure = ok tt

-- What comes behind an error, or behind a call that has not returned, is not run.
module _ {ℓ κ} {A : Type ℓ} {B : Type κ} where
  infixl 5 ◌>>=◌
  abbrev pub ◌>>=◌ : Result A → (A → Result B) → Result B
  hangs >>= next = hangs
  err failure >>= next = err failure
  ok value >>= next = next value

module _ {ℓ} {B : Type ℓ} where
  infixl 5 ◌>>◌
  abbrev pub ◌>>◌ : Result (Unit {0}) → Result B → Result B
  first >> second = first >>= λ _. second

module _ {ℓ κ} {A : Type ℓ} {B : Type κ} (next : A → Result B) {value : B} where
  -- A chain that succeeds has succeeded at its first step.
  pub bind-eq-ok :
      (first : Result A)
      → first >>= next ≡ ok value
      → (a : A) × (first ≡ ok a) × (next a ≡ ok value)
  bind-eq-ok hangs done = cc
  bind-eq-ok (err failure) done = cc
  bind-eq-ok (ok a) done = (a, refl, done)

module _ {ℓ} {B : Type ℓ} (failure : Error) (next : Result B) {value : B} where
  pub guard-eq-ok :
      (passed : Bool)
      → guard passed failure >> next ≡ ok value
      → (passed ≡ true) × (next ≡ ok value)
  guard-eq-ok false done = cc
  guard-eq-ok true done = (refl, done)

pub record Link : Type 0 where
  pub id : Int64
  pub short_code : Text
  pub original_url : Text
  pub user_id : Text
  pub created_at : Time
  pub expires_at : Option Time

-- `Link.Expired`
unfoldable pub is_expired : Link → Time → Bool
is_expired l now = elim l.expires_at [ none ↦ false | some t ↦ ltb_ℤ t now ]
