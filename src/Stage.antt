-- ===== src/Stage.antt =====
-- The data of one stage execution of src/model_council/runner.py: its limits, what it persists, what
-- it returns, and the environment that answers it (the clock, the adapter and the store).
-- Times are whole ticks of the monotonic clock; wall-clock texts and digests are left out.
pub mod Handlers
pub mod Call
pub mod Attempt
pub mod Settled
pub mod Checked
pub mod Attempted
pub mod Loop
pub mod Terminal
use model_council_lab.Prelude.{
  pos, negsuc, String, none, some, ◌∷◌, [], true, false, ◌+++◌, Bool, Option, ℕ, ℤ, List,
  if◌then◌else◌, ◌==◌,
}
use model_council_lab.Errors.{Exc, Result, ok, err, other_exception}
use model_council_lab.Roles.{Role, Condition}
use model_council_lab.Category.{ProviderErrorCategory}
use model_council_lab.Json.{Fields, Json}
use model_council_lab.Findings.{Finding}
use model_council_lab.Identity.{ProviderCallOutcome, AdapterIdentity, IdentityPolicy}
use model_council_lab.Structured.{Render}

pub record ResourceLimits : Type 0 where
  pub max_input_tokens_per_stage : ℕ
  pub max_output_tokens_per_stage : ℕ
  pub max_tool_calls_per_stage : ℕ
  pub stage_timeout : ℕ
  pub max_stage_retries : ℕ

-- ResourceLimits.__post_init__, on the arguments of the constructor
unfoldable pub resource_limits : ℤ → ℤ → ℤ → ℤ → ℤ → Result ResourceLimits
resource_limits (pos input) (pos output) (pos tools) (pos timeout) (pos retries) =
    if input == 0
    then err (other_exception "ValueError" "max_input_tokens_per_stage must be positive")
    else if output == 0
    then err (other_exception "ValueError" "max_output_tokens_per_stage must be positive")
    else if timeout == 0
    then err (other_exception "ValueError" "stage_timeout_seconds must be positive")
    else ok (record {
      max_input_tokens_per_stage = input;
      max_output_tokens_per_stage = output;
      max_tool_calls_per_stage = tools;
      stage_timeout = timeout;
      max_stage_retries = retries;
    })
resource_limits _ _ _ _ _ = err (other_exception "ValueError" "a limit must be non-negative")

pub data RetryDecision : Type 0 where
  promote retry stop : RetryDecision

pub data RetryRationale : Type 0 where
  stage_succeeded retry_candidate_remaining retry_budget_exhausted : RetryRationale
  provider_nonretryable failed_budget failed_contract : RetryRationale
  identity_policy_rejected infrastructure_failure : RetryRationale

pub data CheckVerdict : Type 0 where
  unchecked passed_check failed_check : CheckVerdict

pub data FailureClass : Type 0 where
  timeout model provider budget contract governance infrastructure : FailureClass

-- The fields of an invocation record that the stage decides.
pub record InvocationRecord : Type 0 where
  pub attempt : ℕ
  pub attempt_timeout : ℤ
  pub tokens_in : ℕ
  pub tokens_out : ℕ
  pub cumulative_tokens_in : ℕ
  pub consumed_tokens_in : ℕ
  pub invocation_began : Bool
  pub response_latency : Option ℤ
  pub retry_decision : RetryDecision
  pub retry_rationale : RetryRationale
  pub contract_verdict : CheckVerdict
  pub identity_verdict : CheckVerdict
  pub failure_class : Option FailureClass
  pub error_category : Option ProviderErrorCategory

pub data StageStatus : Type 0 where
  succeeded failed_stage retry_exhausted : StageStatus

-- A StageResult of a stage that failed.
pub record StageFailure : Type 0 where
  pub role : Role
  pub attempt : ℕ
  pub status : StageStatus
  pub error : String
  pub tokens_in : Option ℕ
  pub tokens_out : Option ℕ

pub record StageSuccess : Type 0 where
  pub role : Role
  pub attempt : ℕ
  pub response : Fields
  pub artifacts : Fields
  pub attempt_timeout : ℤ
  pub tokens_in : ℕ
  pub tokens_out : ℕ
  pub cumulative_tokens_in : ℕ
  pub identity_used : Json
  pub provider_outcome : Option ProviderCallOutcome
  pub response_latency : Option ℤ
  pub deadline : ℕ

pub data StageOutcome : Type 0 where
  success_outcome : StageSuccess → StageOutcome
  failure_outcome : StageFailure → StageOutcome

pub data ExecutionProfile : Type 0 where
  pre_live_legacy live_contract_v1 : ExecutionProfile

-- What the stage is given: the run's settings, and the answers of the clock (by the number of the
-- reading), of the adapter (by the attempt) and of the store (by the number of the write, with the
-- exception that the write raises).
pub record Env : Type 0 where
  pub render : Render
  pub findings_text : List Finding → String
  pub condition : Condition
  pub role : Role
  pub limits : ResourceLimits
  pub model_identifier : String
  pub adapter_identity : AdapterIdentity
  pub is_openai : Bool
  pub profile : ExecutionProfile
  pub policy : Option IdentityPolicy
  pub estimated_in : ℕ
  pub clock : ℕ → ℕ
  pub invoke : ℕ → Result Fields
  pub invoke_live : ℕ → Result ProviderCallOutcome
  pub lifecycle_matches : ℕ → Result Bool
  pub persist : ℕ → Option Exc

-- What a stage changes: clock readings and store writes so far, the attempts handed to the adapter
-- (the latest first), the records persisted, and the verifier's findings that the run keeps.
pub record World : Type 0 where
  pub reads : ℕ
  pub writes : ℕ
  pub calls : List ℕ
  pub records : List InvocationRecord
  pub findings : List Finding

abbrev pub Stage : Type 0 → Type 0
Stage A = World → Result A × World

abbrev pub continue : {A B : Type 0} → Result A → (A → Stage B) → Stage B
continue (ok a) f w = f a w
continue (err e) f w = (err e, w)

infixl 5 ◌>>=◌ ◌>>◌
abbrev pub ◌>>=◌ : {A B : Type 0} → Stage A → (A → Stage B) → Stage B
◌>>=◌ m f w = continue (m w).0 f (m w).1

abbrev pub ◌>>◌ : {B : Type 0} → Stage (Unit {0}) → Stage B → Stage B
m >> k = m >>= λ _. k

abbrev pub pure : {A : Type 0} → A → Stage A
pure a w = (ok a, w)

abbrev pub raise : {A : Type 0} → Exc → Stage A
raise e w = (err e, w)

abbrev pub lift : {A : Type 0} → Result A → Stage A
lift r w = (r, w)

abbrev pub is_legacy : ExecutionProfile → Bool
is_legacy pre_live_legacy = true
is_legacy live_contract_v1 = false

abbrev pub negative : Option ℤ → Bool
negative (some (negsuc n)) = true
negative _ = false
