-- ===== src/Access/Tests.antt =====
-- Tests of src/runtime/company-config/access-policy.ts.
use tiny_office.Prelude.{◌≡◌, refl, false, [], ◌∷◌, any}
use tiny_office.Prelude.Text.{trim}
use tiny_office.Prelude.Json.{
  Json, number, string, array, object, nil, cons, field, end, get_member,
}
use tiny_office.Prelude.Exec.{ok, pure, require, guard, choose, ◌>>=◌}
use tiny_office.Access.{
  allow, ask, ToolGuardPolicy, read_mode, collect, read_strings, normalize_tool_guard_policy,
}
use tiny_office.Access.RoundTrip.{IsNormal, policy_json, normalize_tool_guard_policy-twice}

abbrev written : Json
written = object (
    field "version" (number 1) (
      field "cwdBoundaryWriteMode" (string "ask") (
        field "bashDenyPatterns"
          (array (cons (string " sudo* ") (cons (string "sudo*") (cons (string " ") nil)))) end)))

abbrev policy : ToolGuardPolicy
policy = record {
  cwd_boundary_read_mode = allow;
  cwd_boundary_write_mode = ask;
  sensitive_path_patterns = [];
  blocked_read_path_patterns = [];
  protected_write_path_patterns = [];
  ask_read_path_patterns = [];
  ask_write_path_patterns = [];
  external_write_allow_paths = [];
  bash_deny_patterns = "sudo*" ∷ [];
  bash_ask_patterns = [];
  bash_allow_patterns = [];
  deny_bash_by_default = false;
}

policy_read : normalize_tool_guard_policy written tt ≡ (ok policy, tt)
unfolding normalize_tool_guard_policy read_mode read_strings collect get_member trim any pure
    require guard choose ◌>>=◌
policy_read = refl

normalize_tool_guard_policy-twice_example :
    IsNormal policy × (normalize_tool_guard_policy (policy_json policy) tt ≡ (ok policy, tt))
normalize_tool_guard_policy-twice_example =
    normalize_tool_guard_policy-twice written policy policy_read
