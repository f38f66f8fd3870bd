-- ===== src/Threads/Error.antt =====
-- crates/br-runner-threads/src/error.rs: the errors of a call to the Threads service. A JSON value
-- is its text.
use Prim.Native.String.{String}
use br_jobs_runner_kit.Prelude.{ℕ, ◌≡◌, ◌⊎◌, inl, inr, refl, Bool, List, Option, if◌then◌else◌}

pub data Cause : Type 0 where
  wait_fired transport no_listener : Cause

pub record Failure : Type 0 where
  pub cause : Cause
  pub text : String

pub data CredentialKind : Type 0 where
  no_usable fetch_failed : CredentialKind

pub record CredentialFailure : Type 0 where
  pub kind : CredentialKind
  pub text : String

pub record Refusal : Type 0 where
  pub code : String
  pub reason : Option String
  pub params : List (String × String)
  pub message : String
  pub command_id : Option ℕ

pub data Error : Type 0 where
  invalid_input : String → Error
  credential : CredentialFailure → Error
  unauthenticated : Error
  unavailable lost : Failure → Error
  refused : Refusal → Error
  unreadable : String → Error
  stream_broken stream_closed : Error
  infra_missing store : String → Error

-- What a fallible call gives.
pub data Result {ℓ} (A : Type ℓ) : Type ℓ where
  ok : A → Result A
  fail : Error → Result A

-- The operator `?`.
infixl 5 ◌>>=◌
abbrev pub ◌>>=◌ {ℓ κ} : {A : Type ℓ} {B : Type κ} → Result A → (A → Result B) → Result B
fail e >>= next = fail e
ok a >>= next = next a

-- An early return of an error.
abbrev pub unless_fails : Bool → Error → Result (Unit {0})
unless_fails failing e = if failing then fail e else ok tt

-- `from_store`: `to_string` of an error is an argument.
unfoldable pub from_store : (Error → String) → Error → Error
from_store to_string (store text) = store text
from_store to_string other = store (to_string other)

pub Result-cases {ℓ} :
    {A : Type ℓ} (m : Result A) → ((e : Error) × (m ≡ fail e)) ⊎ ((a : A) × (m ≡ ok a))
Result-cases (fail e) = inl (e, refl)
Result-cases (ok a) = inr (a, refl)
