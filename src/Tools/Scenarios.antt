-- ===== src/Tools/Scenarios.antt =====
-- The tool registry and the approval gate on concrete tools (internal/tools/registry,
-- internal/agent/tool), and the theorems of the modules beside this one at work.
use mathlib.Core.List.{Memᴰ}
use opspilot_go_dev_kit.Prelude.{
  AllPairs, ℕ, suc, String, ◌≡◌, ◌≢◌, ◌⊎◌, refl, true, false, none, some, List, [], ◌∷◌, ok, All,
}
use opspilot_go_dev_kit.Prelude.Dict.{Dict, find, put}
use opspilot_go_dev_kit.Prelude.Sorting.{IsSorted}
use opspilot_go_dev_kit.Tools.Registry.{
  Definition, lookup, register, new_registry, register_all, last_named, list_definitions,
  name_before, registry_lem,
}
use opspilot_go_dev_kit.Tools.Execution.{
  ToolInvocation, ToolResult, execute, execute-gated, IsCleared, needs_approval, gated_result,
  tool_succeeded, tool_approval_required,
}

-- A tool that counts the comments it writes.
abbrev comment_create : Definition ℕ String
comment_create = record {
  name = "ticket_comment_create";
  description = "Create a comment on an existing ticket";
  action_class = "write";
  read_only = false;
  requires_approval = true;
  async_only = false;
  parameters = [];
  stub_response = "";
  executor = some (λ n args. (ok args, suc n));
}

abbrev ticket_search : Definition ℕ String
ticket_search = record comment_create {
  name = "ticket_search";
  action_class = "read";
  read_only = true;
  requires_approval = false;
  executor = none;
}

abbrev defaults : List (Definition ℕ String)
defaults = ticket_search ∷ comment_create ∷ []

abbrev registry : Dict (Definition ℕ String)
registry = register_all defaults new_registry

abbrev invocation : ToolInvocation
invocation = record {
  request_id = "r1";
  trace_id = "";
  tenant_id = "t1";
  session_id = "";
  task_id = "";
  plan_id = "plan-r1";
  step_id = "step-2";
  tool_name = "ticket_comment_create";
  action_class = "write";
  requires_approval = false;
  approval_granted = false;
  arguments = "{}";
  dry_run = false;
}

gate_test : execute (λ text. ok text) registry invocation 0 ≡ (ok (gated_result invocation), 0)
unfolding execute needs_approval lookup register new_registry find put
gate_test = refl

registry_lem_example :
    (lookup "ticket_search" registry ≡ last_named "ticket_search" defaults)
    × IsSorted name_before (list_definitions registry)
    × AllPairs (λ d e. d.name ≢ e.name) (list_definitions registry)
    × All (λ d. lookup d.name registry ≡ some d) (list_definitions registry)
    × ((d : Definition ℕ String)
        → lookup "ticket_search" registry ≡ some d
        → Memᴰ d (list_definitions registry))
registry_lem_example = registry_lem defaults "ticket_search"

execute-gated_example :
    let (r, w') = execute (λ text. ok text) registry invocation 0 in
    (w' ≢ 0 → IsCleared registry invocation)
    × ((res : ToolResult)
        → r ≡ ok res
        → ((res.status ≡ tool_succeeded) × IsCleared registry invocation)
          ⊎ ((res.status ≡ tool_approval_required) × (w' ≡ 0)))
execute-gated_example = execute-gated (λ text. ok text) registry invocation 0
