-- ===== src/Eval/Judge.antt =====
-- internal/eval/judge.go: the built-in judge, and what a judge is to the services.
use opspilot_go_dev_kit.Prelude.{ℕ, String, ◌<>◌, List, map, Result, ok, ◌==◌, if◌then◌else◌}
use opspilot_go_dev_kit.Prelude.Json.{json_string}
use opspilot_go_dev_kit.Prelude.Floats.{Float64}
use opspilot_go_dev_kit.Eval.Types.{
  Item, ItemResult, item_result_succeeded, verdict_pass, verdict_fail,
}

-- `RunJudge.BuildItemResults`, of the items, the status, the detail and the time. The error is the text
-- of the judge's `error`.
abbrev pub RunJudge : Type 0
RunJudge = List Item → String → String → ℕ → Result String (List ItemResult)

abbrev pub placeholder_judge_kind : String
placeholder_judge_kind = "placeholder"

abbrev pub placeholder_judge_version : String
placeholder_judge_version = "placeholder-v1"

abbrev pub placeholder_judge_prompt_path : String
placeholder_judge_prompt_path = "eval/prompts/placeholder-eval-judge-v1.md"

-- The bits of 1 and of 0.
abbrev pub score_one : Float64
score_one = record { bits = 0x3ff0000000000000 }

abbrev pub score_zero : Float64
score_zero = record { bits = 0 }

-- The score as encoding/json writes it.
unfoldable pub placeholder_judge_output : String → String → String → String
placeholder_judge_output verdict score rationale =
    "{\"judge_kind\":"
    <> json_string placeholder_judge_kind
    <> ",\"judge_version\":"
    <> json_string placeholder_judge_version
    <> ",\"judge_prompt_path\":"
    <> json_string placeholder_judge_prompt_path
    <> ",\"verdict\":"
    <> json_string verdict
    <> ",\"score\":"
    <> score
    <> ",\"rationale\":"
    <> json_string rationale
    <> "}"

unfoldable pub placeholder_item_result : String → String → ℕ → Item → ItemResult
unfolding placeholder_judge_output
placeholder_item_result status detail updated_at item =
    let passed = status == item_result_succeeded in
    let verdict = if passed then verdict_pass else verdict_fail in
    record {
      eval_case_id = item.eval_case_id;
      status = status;
      verdict = verdict;
      detail = detail;
      score = if passed then score_one else score_zero;
      judge_version = placeholder_judge_version;
      judge_output = placeholder_judge_output verdict (if passed then "1" else "0") detail;
      updated_at = updated_at;
    }

unfoldable pub placeholder_judge : RunJudge
unfolding placeholder_item_result
placeholder_judge items status detail updated_at =
    ok (map (placeholder_item_result status detail updated_at) items)
