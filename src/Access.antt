-- ===== src/Access.antt =====
-- src/runtime/company-config/access-policy.ts: the policy of the tool guard, read from a JSON value. A
-- number of the model is a natural number.
pub mod Stable
pub mod RoundTrip
pub mod Tests
use tiny_office.Prelude.{
  ℕ, String, Bool, true, false, Option, none, some, List, [], ◌∷◌, ◌++◌, ◌||◌, ◌==◌, any, eqb,
  if◌then◌else◌,
}
use tiny_office.Prelude.Text.{trim}
use tiny_office.Prelude.Json.{
  Json, undefined, null, bool, number, string, array, object, Items, nil, cons, Fields, get_member,
}
use tiny_office.Prelude.Exec.{Exec, pure, throw, require, guard, choose, ◌>>=◌, ◌>>◌}

-- `CwdBoundaryMode`
pub data BoundaryMode : Type 0 where
  allow ask deny : BoundaryMode

pub record ToolGuardPolicy : Type 0 where
  pub cwd_boundary_read_mode : BoundaryMode
  pub cwd_boundary_write_mode : BoundaryMode
  pub sensitive_path_patterns : List String
  pub blocked_read_path_patterns : List String
  pub protected_write_path_patterns : List String
  pub ask_read_path_patterns : List String
  pub ask_write_path_patterns : List String
  pub external_write_allow_paths : List String
  pub bash_deny_patterns : List String
  pub bash_ask_patterns : List String
  pub bash_allow_patterns : List String
  pub deny_bash_by_default : Bool

pub data PolicyFault : Type 0 where
  not_an_object wrong_version : PolicyFault
  bad_mode not_strings : String → PolicyFault

-- Reading a policy uses no state.
abbrev pub Reading : Type 0 → Type 0
Reading A = Exec PolicyFault Unit A

abbrev pub mode_of : String → Option BoundaryMode
mode_of s =
    if s == "allow"
    then some allow
    else if s == "ask"
    then some ask
    else if s == "deny"
    then some deny
    else none

-- `normalizeCwdBoundaryMode`
unfoldable pub read_mode : Json → String → Reading BoundaryMode
read_mode undefined label = pure allow
read_mode (string s) label = require (mode_of s) (bad_mode label)
read_mode null label = throw (bad_mode label)
read_mode (bool b) label = throw (bad_mode label)
read_mode (number n) label = throw (bad_mode label)
read_mode (array items) label = throw (bad_mode label)
read_mode (object fields) label = throw (bad_mode label)

-- `!trimmed || seen.has(trimmed)`, where `seen` has the texts of the result
abbrev pub is_skipped : List String → String → Bool
is_skipped result trimmed = trimmed == "" || any (λ x. x == trimmed) result

-- `for (const item of value) …`, with the result so far
unfoldable pub collect : String → List String → Items → Reading (List String)
collect label result nil = pure result
collect label result (cons (string s) rest) =
    let skip = collect label result rest in
    let keep = collect label (result ++ (trim s ∷ [])) rest in
    choose (is_skipped result (trim s)) skip keep
collect label result (cons undefined rest) = throw (not_strings label)
collect label result (cons null rest) = throw (not_strings label)
collect label result (cons (bool b) rest) = throw (not_strings label)
collect label result (cons (number n) rest) = throw (not_strings label)
collect label result (cons (array items) rest) = throw (not_strings label)
collect label result (cons (object fields) rest) = throw (not_strings label)

-- `normalizeStringArray`
unfoldable pub read_strings : Json → String → Reading (List String)
unfolding collect
read_strings undefined label = pure []
read_strings (array items) label = collect label [] items
read_strings null label = throw (not_strings label)
read_strings (bool b) label = throw (not_strings label)
read_strings (number n) label = throw (not_strings label)
read_strings (string s) label = throw (not_strings label)
read_strings (object fields) label = throw (not_strings label)

abbrev is_one : Json → Bool
is_one (number n) = eqb n 1
is_one undefined = false
is_one null = false
is_one (bool b) = false
is_one (string s) = false
is_one (array items) = false
is_one (object fields) = false

abbrev is_true : Json → Bool
is_true (bool b) = b
is_true undefined = false
is_true null = false
is_true (number n) = false
is_true (string s) = false
is_true (array items) = false
is_true (object fields) = false

abbrev as_fields : Json → Option Fields
as_fields (object fields) = some fields
as_fields undefined = none
as_fields null = none
as_fields (bool b) = none
as_fields (number n) = none
as_fields (string s) = none
as_fields (array items) = none

unfoldable pub normalize_tool_guard_policy : Json → Reading ToolGuardPolicy
unfolding read_mode read_strings
normalize_tool_guard_policy value = do
  candidate ← require (as_fields value) not_an_object
  guard (is_one (get_member "version" candidate)) wrong_version
  read_mode_found ← read_mode (get_member "cwdBoundaryReadMode" candidate) "cwdBoundaryReadMode"
  write_mode_found ← read_mode (get_member "cwdBoundaryWriteMode" candidate) "cwdBoundaryWriteMode"
  sensitive ← read_strings (get_member "sensitivePathPatterns" candidate) "sensitivePathPatterns"
  blocked ← read_strings (get_member "blockedReadPathPatterns" candidate) "blockedReadPathPatterns"
  protected ←
      read_strings (get_member "protectedWritePathPatterns" candidate) "protectedWritePathPatterns"
  ask_read ← read_strings (get_member "askReadPathPatterns" candidate) "askReadPathPatterns"
  ask_write ← read_strings (get_member "askWritePathPatterns" candidate) "askWritePathPatterns"
  external ← read_strings (get_member "externalWriteAllowPaths" candidate) "externalWriteAllowPaths"
  bash_deny ← read_strings (get_member "bashDenyPatterns" candidate) "bashDenyPatterns"
  bash_ask ← read_strings (get_member "bashAskPatterns" candidate) "bashAskPatterns"
  bash_allow ← read_strings (get_member "bashAllowPatterns" candidate) "bashAllowPatterns"
  pure record {
    cwd_boundary_read_mode = read_mode_found;
    cwd_boundary_write_mode = write_mode_found;
    sensitive_path_patterns = sensitive;
    blocked_read_path_patterns = blocked;
    protected_write_path_patterns = protected;
    ask_read_path_patterns = ask_read;
    ask_write_path_patterns = ask_write;
    external_write_allow_paths = external;
    bash_deny_patterns = bash_deny;
    bash_ask_patterns = bash_ask;
    bash_allow_patterns = bash_allow;
    deny_bash_by_default = is_true (get_member "denyBashByDefault" candidate);
  }
