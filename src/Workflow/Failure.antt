-- ===== src/Workflow/Failure.antt =====
-- internal/workflow/runner.go: how an execution error is shortened and classified for the audit log.
use Prim.Native.String.{len, slice}
use opspilot_go_dev_kit.Prelude.{
  ◌+◌, String, ◌<>◌, ◌≡◌, refl, ◌||◌, none, some, ◌==◌, if◌then◌else◌, ltb,
}
use opspilot_go_dev_kit.Prelude.Strings.{contains, last_index, from, trim_space, to_lower}
use text.Mathlib.Text.{find?}
use opspilot_go_dev_kit.Workflow.Types.{audit_action_succeeded}

unfoldable pub fallback_audit_ref : String → String → String
fallback_audit_ref value fallback = if value == "" then fallback else value

-- Behind the last "): ", unless nothing follows it.
unfoldable pub after_last_prefix : String → String
after_last_prefix message = elim (last_index message "): ") [
  | none ↦ message
  | some i ↦ if ltb (i + 3) (len message) then from (i + 3) message else message
]

-- Before the first " (type: ".
unfoldable pub before_type : String → String
before_type message = elim (find? message " (type: ") [
  | none ↦ message
  | some i ↦ slice message 0 i
]

-- `nil` does not reach the callers' argument: each passes an error that was returned.
unfoldable pub summarize_execution_error : String → String
unfolding after_last_prefix before_type
summarize_execution_error error =
    let message = trim_space error in
    if message == "" then "" else trim_space (before_type (after_last_prefix message))

-- The `switch` of `classifyExecutionFailure`, over the lowered summary.
unfoldable pub failure_class : String → String
failure_class lower =
    if contains lower "fault injection"
    then "injected_failure"
    else if contains lower "requires ticket_"
        || contains lower "requires comment"
        || contains lower "requires query"
        || contains lower "decode ticket_"
    then "validation_error"
    else if contains lower "status 401"
        || contains lower "status 403"
        || contains lower "unauthorized"
    then "authorization_error"
    else if contains lower "status 4"
    then "request_error"
    else if contains lower "status 5" || contains lower "call ticket_"
    then "upstream_error"
    else "execution_error"

unfoldable pub classify_execution_failure : String → String
unfolding failure_class
classify_execution_failure text =
    let summary = trim_space text in
    if summary == "" then "" else failure_class (to_lower summary) <> ": " <> summary

unfoldable pub success_or_failure_detail : String → String → String → String → String
unfolding fallback_audit_ref classify_execution_failure
success_or_failure_detail action success_detail failure_detail fallback =
    if action == audit_action_succeeded
    then fallback_audit_ref success_detail fallback
    else fallback_audit_ref (classify_execution_failure failure_detail) fallback

summarize_test :
    summarize_execution_error
      "activity error (type: X): call ticket_create: status 503 (type: wrapError, retryable: true)"
    ≡ "call ticket_create: status 503"
unfolding summarize_execution_error trim_space last_index
summarize_test = refl

classify_test :
    classify_execution_failure "call ticket_create: Status 403 "
    ≡ "authorization_error: call ticket_create: Status 403"
unfolding classify_execution_failure trim_space to_lower
classify_test = refl
