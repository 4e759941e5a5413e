-- ===== src/Tools/Execution.antt =====
-- internal/agent/tool: `Execute` runs a tool, unless it needs an approval that was not granted.
-- `json.Marshal` is a parameter: it answers with the text or the text of its error.
use opspilot_go_dev_kit.Prelude.{
  String, ◌<>◌, ◌≡◌, ◌≢◌, ◌⊎◌, inl, inr, refl, sym, ap, ◌∙◌, Bool, true, false, ◌&&◌, ◌||◌, not,
  none, some, Result, ok, err, arith, ◌==◌, if◌then◌else◌, Bool-cases, Option-cases, Result-cases,
}
use opspilot_go_dev_kit.Prelude.Dict.{Dict}
use opspilot_go_dev_kit.Tools.Registry.{Definition, lookup}

abbrev pub action_class_read : String
action_class_read = "read"

abbrev pub action_class_write : String
action_class_write = "write"

abbrev pub action_class_admin : String
action_class_admin = "admin"

abbrev pub tool_succeeded : String
tool_succeeded = "succeeded"

abbrev pub tool_approval_required : String
tool_approval_required = "approval_required"

pub record ToolInvocation : Type 0 where
  pub request_id : String
  pub trace_id : String
  pub tenant_id : String
  pub session_id : String
  pub task_id : String
  pub plan_id : String
  pub step_id : String
  pub tool_name : String
  pub action_class : String
  pub requires_approval : Bool
  pub approval_granted : Bool
  pub arguments : String
  pub dry_run : Bool

pub record ToolResult : Type 0 where
  pub tool_call_id : String
  pub tool_name : String
  pub status : String
  pub output_summary : String
  pub structured_data : String
  pub error_code : String
  pub error_message : String
  pub approval_ref : String
  pub audit_ref : String

pub data ToolError : Type 0 where
  tool_not_found : String → ToolError
  execution_failed : String → String → ToolError
  marshal_failed : String → ToolError

-- The result as it is before the gate.
unfoldable pub started_result : ToolInvocation → ToolResult
started_result inv = record {
  tool_call_id = "toolcall-" <> inv.plan_id <> "-" <> inv.step_id;
  tool_name = inv.tool_name;
  status = "";
  output_summary = "";
  structured_data = "";
  error_code = "";
  error_message = "";
  approval_ref = "";
  audit_ref = "audit-" <> inv.plan_id <> "-" <> inv.step_id;
}

unfoldable pub gated_result : ToolInvocation → ToolResult
unfolding started_result
gated_result inv = record (started_result inv) {
  status = tool_approval_required;
  output_summary = "approval required before tool execution";
  approval_ref = "approval-" <> inv.plan_id <> "-" <> inv.step_id;
}

module _ {W J : Type 0} where
  -- What stands beside `!inv.ApprovalGranted` in the guard.
  unfoldable pub needs_approval : ToolInvocation → Definition W J → Bool
  needs_approval inv def =
      inv.requires_approval
      || def.requires_approval
      || def.action_class == action_class_write
      || def.action_class == action_class_admin

  unfoldable pub marshalled :
      (J → Result String String) → ToolInvocation → String → J → W → Result ToolError ToolResult × W
  unfolding started_result
  marshalled marshal inv summary payload w = elim (marshal payload) [
    | err message ↦ (err (marshal_failed message), w)
    | ok text ↦ (
      ok (record (started_result inv) {
        status = tool_succeeded;
        output_summary = summary;
        structured_data = text;
      }),
      w,
    )
  ]

  abbrev finished :
      (J → Result String String)
      → ToolInvocation
      → Result String J × W
      → Result ToolError ToolResult × W
  finished marshal inv (err message, w) = (err (execution_failed inv.tool_name message), w)
  finished marshal inv (ok payload, w) = marshalled marshal inv "tool execution completed" payload w

  -- The part behind the gate.
  unfoldable pub run_tool :
      (J → Result String String)
      → ToolInvocation
      → Definition W J
      → W
      → Result ToolError ToolResult × W
  unfolding marshalled
  run_tool marshal inv def w = elim def.executor [
    | none ↦ marshalled marshal inv "stub tool execution completed" def.stub_response w
    | some executor ↦ finished marshal inv (executor w inv.arguments)
  ]

  unfoldable pub execute :
      (J → Result String String)
      → Dict (Definition W J)
      → ToolInvocation
      → W
      → Result ToolError ToolResult × W
  unfolding lookup needs_approval gated_result run_tool
  execute marshal registry inv w = elim (lookup inv.tool_name registry) [
    | none ↦ (err (tool_not_found inv.tool_name), w)
    | some def ↦
        if not inv.approval_granted && needs_approval inv def
        then (ok (gated_result inv), w)
        else run_tool marshal inv def w
  ]

  -- The tool is registered, and it was approved, or neither the request nor its definition asks for that.
  abbrev pub IsCleared : Dict (Definition W J) → ToolInvocation → Type 0
  IsCleared registry inv =
      (def : Definition W J) × (lookup inv.tool_name registry ≡ some def)
      × ((inv.approval_granted ≡ true)
          ⊎ ((inv.requires_approval ≡ false)
              × (def.requires_approval ≡ false)
              × ((def.action_class == action_class_write) ≡ false)
              × ((def.action_class == action_class_admin) ≡ false)))

  passed_gate :
      (registry : Dict (Definition W J)) (inv : ToolInvocation) (def : Definition W J)
      → lookup inv.tool_name registry ≡ some def
      → (not inv.approval_granted && needs_approval inv def) ≡ false
      → IsCleared registry inv
  unfolding needs_approval
  passed_gate registry inv def found open_gate = elim (Bool-cases inv.approval_granted) [
    | inl granted ↦ (def, found, inl granted)
    | inr missing ↦ (def, found, inr (ground arith, ground arith, ground arith, ground arith))
  ]

  marshalled-status :
      (marshal : J → Result String String) (inv : ToolInvocation) (summary : String) (payload : J)
      (w : W) (res : ToolResult)
      → (marshalled marshal inv summary payload w).0 ≡ ok res
      → res.status ≡ tool_succeeded
  unfolding marshalled
  marshalled-status marshal inv summary payload w res h = elim (Result-cases (marshal payload)) [
    | inr (message, e) ↦ absurd (
        let x : Result.err (marshal_failed message) ≡ Result.ok res = (rw (marshalled, e) at h) in
        cc)
    | inl (text, e) ↦
        let done : ToolResult = record (started_result inv) {
          status = tool_succeeded;
          output_summary = summary;
          structured_data = text;
        } in
        let x : Result.ok done ≡ ok res = (rw (marshalled, e) at h) in
        let res_eq : done ≡ res = cc in sym (ap (λ r. r.status) res_eq)
  ]

  finished-status :
      (marshal : J → Result String String) (inv : ToolInvocation) (r : Result String J × W)
      (res : ToolResult)
      → (finished marshal inv r).0 ≡ ok res
      → res.status ≡ tool_succeeded
  finished-status marshal inv (err message, w) res h = absurd (cc)
  finished-status marshal inv (ok payload, w) res h =
      marshalled-status marshal inv "tool execution completed" payload w res h

  run_tool-status :
      (marshal : J → Result String String) (inv : ToolInvocation) (def : Definition W J) (w : W)
      (res : ToolResult)
      → (run_tool marshal inv def w).0 ≡ ok res
      → res.status ≡ tool_succeeded
  unfolding run_tool
  run_tool-status marshal inv def w res h = elim (Option-cases def.executor) [
    | inl e ↦
        marshalled-status marshal inv "stub tool execution completed" def.stub_response w res
          (rw (run_tool, e) at h)
    | inr (executor, e) ↦
        finished-status marshal inv (executor w inv.arguments) res (rw (run_tool, e) at h)
  ]

  -- Nothing outside changes by `Execute` unless the tool is registered and was approved, or neither the
  -- request nor the definition asks for an approval and the tool is neither of class write nor admin. A
  -- result without error says succeeded under the same condition, or says that an approval is required,
  -- and then nothing changed.
  pub execute-gated :
      (marshal : J → Result String String) (registry : Dict (Definition W J)) (inv : ToolInvocation)
      (w : W)
      → let (r, w') = execute marshal registry inv w in
        (w' ≢ w → IsCleared registry inv)
        × ((res : ToolResult)
            → r ≡ ok res
            → ((res.status ≡ tool_succeeded) × IsCleared registry inv)
              ⊎ ((res.status ≡ tool_approval_required) × (w' ≡ w)))
  unfolding execute gated_result
  execute-gated marshal registry inv w = elim (Option-cases (lookup inv.tool_name registry)) [
    | inl e ↦
        rw (execute, e)
          (
            (λ changed. absurd (changed refl)),
            λ res h.
                absurd
                  (let x : Result.err (tool_not_found inv.tool_name) ≡ Result.ok res = h in cc),
          )
    | inr (def, e) ↦ elim (Bool-cases (not inv.approval_granted && needs_approval inv def)) [
      | inl shut ↦
          rw (execute, e, shut)
            (
              (λ changed. absurd (changed refl)),
              λ res h.
                  let x : Result.ok (gated_result inv) ≡ ok res = h in
                  let res_eq : gated_result inv ≡ res = cc in
                  inr (sym (ap (λ r. r.status) res_eq), refl),
            )
      | inr passed ↦
          let (d, found, free) = passed_gate registry inv def e passed in
          rw (execute, e, passed)
            (
              (λ changed. (d, sym e ∙ found, free)),
              λ res h. inl (run_tool-status marshal inv def w res h, (d, sym e ∙ found, free)),
            )
    ]
  ]
