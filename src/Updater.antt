-- ===== src/Updater.antt =====
-- src/updater.rs: failures, reports and their queries.
pub mod Failures
pub mod Host
pub mod Plan
pub mod Addresses
pub mod Cycle
pub mod Check
pub mod Lock
use cirrusync.Prelude.{
  ℕ, zero, suc, ◌+◌, Bool, true, false, ◌&&◌, not, Option, none, some, List, [], ◌∷◌, ◌++◌, max,
  is_empty, length, any,
}
use cirrusync.Prelude.Strings.{Text, text, decimal}

pub data FailureKind : Type 0 where
  coordination authentication rate_limited transient permanent : FailureKind

pub data FailureStage : Type 0 where
  coordination cycle_deadline discovery authentication zone_lookup record_lookup update creation
        edit_permission :
      FailureStage

unfoldable pub stage_str : FailureStage → Text
stage_str coordination = text "runtime coordination"
stage_str cycle_deadline = text "cycle deadline"
stage_str discovery = text "public IP discovery"
stage_str authentication = text "authentication"
stage_str zone_lookup = text "zone lookup"
stage_str record_lookup = text "record lookup"
stage_str update = text "record update"
stage_str creation = text "record creation"
stage_str edit_permission = text "DNS edit permission"

-- The retry delay is in seconds.
pub record CycleFailure : Type 0 where
  pub target : Text
  pub stage : FailureStage
  pub kind : FailureKind
  pub retry_after : Option ℕ
  pub message : Text

pub record CycleReport : Type 0 where
  pub records : ℕ
  pub unchanged : ℕ
  pub updated : ℕ
  pub created : ℕ
  pub interrupted : Bool
  pub failures : List CycleFailure

abbrev pub empty_report : ℕ → CycleReport
empty_report records = record {
  records = records;
  unchanged = 0;
  updated = 0;
  created = 0;
  interrupted = false;
  failures = [];
}

unfoldable pub is_success : CycleReport → Bool
is_success r = is_empty r.failures && not r.interrupted

abbrev max_option : Option ℕ → Option ℕ → Option ℕ
max_option none b = b
max_option (some a) none = some a
max_option (some a) (some b) = some (max a b)

longest : List CycleFailure → Option ℕ
longest [] = none
longest (f ∷ fs) = max_option f.retry_after (longest fs)

unfoldable pub retry_after : CycleReport → Option ℕ
unfolding longest
retry_after r = longest r.failures

abbrev pub is_authentication : FailureKind → Bool
is_authentication authentication = true
is_authentication _ = false

abbrev pub is_retryable : FailureKind → Bool
is_retryable rate_limited = true
is_retryable transient = true
is_retryable _ = false

unfoldable pub has_authentication_failure : CycleReport → Bool
has_authentication_failure r = any (λ f. is_authentication f.kind) r.failures

unfoldable pub has_retryable_failure : CycleReport → Bool
has_retryable_failure r = any (λ f. is_retryable f.kind) r.failures

unfoldable pub report_str : CycleReport → Text
report_str r =
    decimal r.records
    ++ text " record(s): "
    ++ decimal r.unchanged
    ++ text " unchanged, "
    ++ decimal r.updated
    ++ text " updated, "
    ++ decimal r.created
    ++ text " created, "
    ++ decimal (length r.failures)
    ++ text " failed"
    ++ (elim r.interrupted [ true ↦ text ", interrupted by shutdown" | false ↦ [] ])

pub record CheckReport : Type 0 where
  pub records : ℕ
  pub authenticated : Bool
  pub existing : ℕ
  pub creatable : ℕ
  pub created : ℕ
  pub edit_verified_zones : ℕ
  pub edit_permission_verified : Bool
  pub failures : List CycleFailure

pub check_is_success : CheckReport → Bool
check_is_success r = r.authenticated && r.edit_permission_verified && is_empty r.failures
