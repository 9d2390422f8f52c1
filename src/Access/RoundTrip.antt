-- ===== src/Access/RoundTrip.antt =====
-- The tool guard policy that is read (src/runtime/company-config/access-policy.ts) against the JSON value
-- that a policy is stored as.
use tiny_office.Prelude.{String, ◌≡◌, refl, subst, List, []}
use tiny_office.Prelude.Json.{Json, bool, number, string, array, object, field, end, get_member}
use tiny_office.Prelude.Exec.{ok, pure, require, guard, ◌>>=◌}
use tiny_office.Prelude.Exec.Ensures.{
  Ensures, Returns, Ensures-pure, Ensures-guard, Ensures-bind, Ensures-states,
}
use tiny_office.Access.{
  BoundaryMode, allow, ask, deny, ToolGuardPolicy, read_mode, read_strings, as_fields,
  not_an_object, wrong_version, normalize_tool_guard_policy,
}
use tiny_office.Access.Stable.{ArePatterns, read_strings-ArePatterns, items_of, collect-items_of}

abbrev pub mode_text : BoundaryMode → String
mode_text allow = "allow"
mode_text ask = "ask"
mode_text deny = "deny"

abbrev pub strings_json : List String → Json
strings_json xs = array (items_of xs)

abbrev pub policy_json : ToolGuardPolicy → Json
policy_json p = object (
    field "version" (number 1) (
      field "cwdBoundaryReadMode" (string (mode_text p.cwd_boundary_read_mode)) (
        field "cwdBoundaryWriteMode" (string (mode_text p.cwd_boundary_write_mode)) (
          field "sensitivePathPatterns" (strings_json p.sensitive_path_patterns) (
            field "blockedReadPathPatterns" (strings_json p.blocked_read_path_patterns) (
              field "protectedWritePathPatterns" (strings_json p.protected_write_path_patterns) (
                field "askReadPathPatterns" (strings_json p.ask_read_path_patterns) (
                  field "askWritePathPatterns" (strings_json p.ask_write_path_patterns) (
                    field "externalWriteAllowPaths" (strings_json p.external_write_allow_paths) (
                      field "bashDenyPatterns" (strings_json p.bash_deny_patterns) (
                        field "bashAskPatterns" (strings_json p.bash_ask_patterns) (
                          field "bashAllowPatterns" (strings_json p.bash_allow_patterns) (
                            field "denyBashByDefault" (bool p.deny_bash_by_default) end)))))))))))))

-- Every list of a policy has trimmed patterns, none of them empty or repeated.
pub record IsNormal (p : ToolGuardPolicy) : Type 0 where
  pub sensitive : ArePatterns p.sensitive_path_patterns
  pub blocked : ArePatterns p.blocked_read_path_patterns
  pub protected : ArePatterns p.protected_write_path_patterns
  pub ask_read : ArePatterns p.ask_read_path_patterns
  pub ask_write : ArePatterns p.ask_write_path_patterns
  pub external : ArePatterns p.external_write_allow_paths
  pub bash_deny : ArePatterns p.bash_deny_patterns
  pub bash_ask : ArePatterns p.bash_ask_patterns
  pub bash_allow : ArePatterns p.bash_allow_patterns

any_mode :
    (value : Json) (label : String) → Ensures {0, 0} (λ _. Unit) (read_mode value label) (λ _. Unit)
any_mode value label = Ensures-states (read_mode value label) (λ _ u. u)

normalize-Ensures :
    (value : Json) → Ensures (λ _. Unit) (normalize_tool_guard_policy value) IsNormal
unfolding normalize_tool_guard_policy
normalize-Ensures value =
    Ensures-bind {Q = λ _. Unit} _ _
      (Ensures-states (require (as_fields value) not_an_object) λ _ u. u)
      λ candidate _. Ensures-bind _ _ (Ensures-guard _ wrong_version) λ _ _.
        Ensures-bind _ _
          (any_mode (get_member "cwdBoundaryReadMode" candidate) "cwdBoundaryReadMode")
          λ _ _.
            Ensures-bind _ _
              (any_mode (get_member "cwdBoundaryWriteMode" candidate) "cwdBoundaryWriteMode")
              λ _ _. Ensures-bind _ _ (read_strings-ArePatterns _ _) λ _ sensitive.
                Ensures-bind _ _ (read_strings-ArePatterns _ _) λ _ blocked.
                  Ensures-bind _ _ (read_strings-ArePatterns _ _) λ _ protected.
                    Ensures-bind _ _ (read_strings-ArePatterns _ _) λ _ ask_read.
                      Ensures-bind _ _ (read_strings-ArePatterns _ _) λ _ ask_write.
                        Ensures-bind _ _ (read_strings-ArePatterns _ _) λ _ external.
                          Ensures-bind _ _ (read_strings-ArePatterns _ _) λ _ bash_deny.
                            Ensures-bind _ _ (read_strings-ArePatterns _ _) λ _ bash_ask.
                              Ensures-bind _ _ (read_strings-ArePatterns _ _) λ _ bash_allow.
                                Ensures-pure _ record {
                                  sensitive = sensitive;
                                  blocked = blocked;
                                  protected = protected;
                                  ask_read = ask_read;
                                  ask_write = ask_write;
                                  external = external;
                                  bash_deny = bash_deny;
                                  bash_ask = bash_ask;
                                  bash_allow = bash_allow;
                                }

mode-read :
    (m : BoundaryMode) (label : String) → read_mode (string (mode_text m)) label tt ≡ (ok m, tt)
unfolding read_mode require
mode-read allow label = refl
mode-read ask label = refl
mode-read deny label = refl

strings-read :
    (xs : List String) (label : String)
    → ArePatterns xs
    → read_strings (strings_json xs) label tt ≡ (ok xs, tt)
unfolding read_strings
strings-read xs label (d, p) = collect-items_of label xs [] d p

-- A policy whose patterns are trimmed, not empty and not repeated is read back from its value.
normal-read :
    (p : ToolGuardPolicy) → IsNormal p → normalize_tool_guard_policy (policy_json p) tt ≡ (ok p, tt)
unfolding normalize_tool_guard_policy get_member require guard pure ◌>>=◌
normal-read p n =
    rw
      (
        mode-read p.cwd_boundary_read_mode "cwdBoundaryReadMode",
        mode-read p.cwd_boundary_write_mode "cwdBoundaryWriteMode",
        strings-read p.sensitive_path_patterns "sensitivePathPatterns" n.sensitive,
        strings-read p.blocked_read_path_patterns "blockedReadPathPatterns" n.blocked,
        strings-read p.protected_write_path_patterns "protectedWritePathPatterns" n.protected,
        strings-read p.ask_read_path_patterns "askReadPathPatterns" n.ask_read,
        strings-read p.ask_write_path_patterns "askWritePathPatterns" n.ask_write,
        strings-read p.external_write_allow_paths "externalWriteAllowPaths" n.external,
        strings-read p.bash_deny_patterns "bashDenyPatterns" n.bash_deny,
        strings-read p.bash_ask_patterns "bashAskPatterns" n.bash_ask,
        strings-read p.bash_allow_patterns "bashAllowPatterns" n.bash_allow,
      )
      refl

-- A policy that is read from a value has in every list trimmed patterns, none of them empty or
-- repeated, and is read back unchanged from the value that it is stored as.
pub normalize_tool_guard_policy-twice :
    (value : Json) (p : ToolGuardPolicy)
    → normalize_tool_guard_policy value tt ≡ (ok p, tt)
    → IsNormal p × (normalize_tool_guard_policy (policy_json p) tt ≡ (ok p, tt))
normalize_tool_guard_policy-twice value p e =
    let n = subst (λ r. Returns IsNormal r.0) e ((normalize-Ensures value).at tt tt).1 in
    (n, normal-read p n)
