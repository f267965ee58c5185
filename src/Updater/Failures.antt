-- ===== src/Updater/Failures.antt =====
-- src/updater.rs: the failures that the workflows report.
use cirrusync.Prelude.{ℕ, Option, none, if◌then◌else◌}
use cirrusync.Prelude.Strings.{Text, text}
use cirrusync.Cloudflare.{CloudflareError}
use cirrusync.Cloudflare.Errors.{is_authentication_failure, is_rate_limited, is_transient, display}
use cirrusync.Cloudflare.Errors
use cirrusync.Updater.{CycleFailure, FailureKind, FailureStage}

kind_of : CloudflareError → FailureKind
kind_of e =
    if is_authentication_failure e
    then FailureKind.authentication
    else if is_rate_limited e
    then FailureKind.rate_limited
    else if is_transient e
    then FailureKind.transient
    else FailureKind.permanent

unfoldable pub cloudflare_failure :
    (ℕ → Option Text) → Text → FailureStage → CloudflareError → CycleFailure
unfolding kind_of
cloudflare_failure canonical_reason target stage e = record {
  target = target;
  stage = stage;
  kind = kind_of e;
  retry_after = Errors.retry_after e;
  message = display canonical_reason e;
}

unfoldable pub permanent_failure : Text → FailureStage → Text → CycleFailure
permanent_failure target stage message = record {
  target = target;
  stage = stage;
  kind = FailureKind.permanent;
  retry_after = none;
  message = message;
}

-- The message is the lock error's display.
unfoldable pub coordination_failure : Text → CycleFailure
coordination_failure message = record {
  target = text "runtime lock";
  stage = FailureStage.coordination;
  kind = FailureKind.coordination;
  retry_after = none;
  message = message;
}

unfoldable pub cycle_deadline_failure : CycleFailure
cycle_deadline_failure = record {
  target = text "synchronization cycle";
  stage = FailureStage.cycle_deadline;
  kind = FailureKind.transient;
  retry_after = none;
  message = text "cycle deadline expired before all read-only work completed";
}

unfoldable pub check_deadline_failure : CycleFailure
check_deadline_failure = record {
  target = text "configuration check";
  stage = FailureStage.cycle_deadline;
  kind = FailureKind.transient;
  retry_after = none;
  message = text "check deadline expired before all configured work completed";
}

unfoldable pub discovery_failure : Text → Text → CycleFailure
discovery_failure target message = record {
  target = target;
  stage = FailureStage.discovery;
  kind = FailureKind.transient;
  retry_after = none;
  message = message;
}
