-- ===== src/Roles/Failures.antt =====
-- src/engine/failover.ts: the failures of a model that are worth another route.
use dsh_workflow_plugin.Prelude.{
  ℕ, String, Bool, true, false, ◌&&◌, Option, none, some, [], ◌∷◌, lookup, leb, nat_eq,
  if◌then◌else◌, Assoc,
}

-- The `code` and `status` of the failure that a turn ended with.
pub record ActorFailureFacts : Type 0 where
  pub code : String
  pub status : Option ℕ

pub data FailureKind : Type 0 where
  unstructured unclassified server_5xx rate_limited : FailureKind
  http : ℕ → FailureKind
  named : String → FailureKind

pub record ActorFailureVerdict : Type 0 where
  pub eligible : Bool
  pub kind : FailureKind

abbrev ineligible_codes : Assoc String
ineligible_codes =
    ("QUOTA", "quota-exhausted")
    ∷ ("ACCOUNT_QUOTA", "quota-exhausted")
    ∷ ("AUTH", "auth-failed")
    ∷ ("INVALID_CREDENTIAL", "auth-failed")
    ∷ ("INVALID_REQUEST", "invalid-request")
    ∷ ("CONTEXT_WINDOW_EXCEEDED", "context-window")
    ∷ ("IMAGE_OFFLOAD_REQUIRED", "image-offload")
    ∷ []

abbrev eligible_codes : Assoc String
eligible_codes =
    ("SERVER", "server-error")
    ∷ ("TIMEOUT", "request-timeout")
    ∷ ("TRANSPORT", "network-transport")
    ∷ []

classify_status : ℕ → ActorFailureVerdict
classify_status status =
    if leb 500 status && leb status 599
    then record { eligible = true; kind = server_5xx }
    else if nat_eq status 429
    then record { eligible = true; kind = rate_limited }
    else record { eligible = false; kind = http status }

classify_code : Option String → ActorFailureVerdict
classify_code (some kind) = record { eligible = true; kind = named kind }
classify_code none = record { eligible = false; kind = unclassified }

classify_allowed : Option ℕ → String → ActorFailureVerdict
unfolding classify_status classify_code
classify_allowed (some status) code = classify_status status
classify_allowed none code = classify_code (lookup code eligible_codes)

unfoldable pub classify_actor_failure : Option ActorFailureFacts → ActorFailureVerdict
unfolding classify_allowed
classify_actor_failure none = record { eligible = false; kind = unstructured }
classify_actor_failure (some facts) = elim (lookup facts.code ineligible_codes) [
  | some blocked ↦ record { eligible = false; kind = named blocked }
  | none ↦ classify_allowed facts.status facts.code
]
