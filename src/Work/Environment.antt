-- ===== src/Work/Environment.antt =====
-- What one call of a work service takes from outside: the clock, the ids that it draws, the company
-- directory, and the two operations of the JavaScript library that depend on its data tables.
-- The errors and the checks on texts, numbers and timestamps (src/work/work-service.ts).
use Prim.Native.Char.{code}
use tiny_office.Prelude.{
  ℕ, String, Ordering, Bool, false, Option, none, some, List, [], ◌∷◌, ◌&&◌, ◌||◌, leb, eqb,
  find_by,
}
use tiny_office.Prelude.Text.{optional_text}
use tiny_office.Prelude.Exec.{Exec, pure, require, guard, ◌>>=◌, ◌>>◌}
use tiny_office.Work.Domain.{Timestamp, Interval, TaskStatus, RunStatus, ScheduleStatus}
use tiny_office.Work.Repository.{Repository}

pub record Employee : Type 0 where
  pub employee_id : String
  pub enabled : Bool

pub record Environment : Type 0 where
  pub now : Timestamp
  -- the id that the call draws after `n` others, for a prefix
  pub create_id : ℕ → String → String
  pub employees : List Employee
  -- `localeCompare`
  pub order : String → String → Ordering
  -- `Date.parse`, `none` for `NaN`
  pub parse_date : String → Option Timestamp
  -- whether the sum of a time and an interval that is not whole, rounded to a double, is the next
  -- whole number; a double has 53 bits, so whole sums up to the last date are exact
  pub rounds_up : Timestamp → Interval → Bool

pub data Error : Type 0 where
  is_required invalid_timestamp missing_offset : String → Error
  interval_required bad_max_runs max_runs_without_schedule : Error
  assignee_unavailable : String → Error
  schedule_not_found task_not_found run_not_found : String → Error
  schedule_not_enabled : ScheduleStatus → Error
  not_due : Error
  invalid_date : Error
  not_failed : RunStatus → Error
  task_not_active : TaskStatus → Error
  active_run_exists : String → Error
  source_run_not_found foreign_source_run terminal_source_run : String → Error
  unchanged_revision archived_task : Error
  bad_schedule_move : ScheduleStatus → ScheduleStatus → Error
  not_archivable : TaskStatus → Error
  bad_run_move : RunStatus → RunStatus → Error
  reason_required : RunStatus → Error
  evidence_required : Error

abbrev pub Work : Type 0 → Type 0
Work A = Exec Error Repository A

-- `requireText`
unfoldable pub require_text : Option String → String → Work String
require_text value field = require (optional_text value) (is_required field)

-- `/(?:Z|[+-]\d{2}:\d{2})$/i`, read from the end of the text
abbrev is_digit : ℕ → Bool
is_digit c = leb b'0' c && leb c b'9'

abbrev ends_with_offset : List ℕ → Bool
ends_with_offset (c ∷ []) = eqb c b'Z' || eqb c b'z'
ends_with_offset (m ∷ n ∷ s ∷ h ∷ i ∷ g ∷ rest) =
    eqb m b'Z'
    || eqb m b'z'
    || (is_digit m
        && is_digit n
        && eqb s b':'
        && is_digit h
        && is_digit i
        && (eqb g b'+' || eqb g b'-'))
ends_with_offset (c ∷ rest) = eqb c b'Z' || eqb c b'z'
ends_with_offset [] = false

abbrev reversed_codes : List ℕ → String → List ℕ
reversed_codes acc String.[] = acc
reversed_codes acc (String.◌∷◌ c s) = reversed_codes (code c ∷ acc) s

unfoldable pub has_offset : String → Bool
has_offset s = ends_with_offset (reversed_codes [] s)

-- `requireIsoTimestamp`
unfoldable pub require_iso_timestamp : Environment → Option String → String → Work Timestamp
unfolding require_text
require_iso_timestamp env value field = do
  normalized ← require_text value field
  instant ← require (env.parse_date normalized) (invalid_timestamp field)
  guard (has_offset normalized) (missing_offset field)
  pure instant

abbrev employee_id : Employee → String
employee_id e = e.employee_id

abbrev is_enabled : Option Employee → Bool
is_enabled none = false
is_enabled (some e) = e.enabled

-- `requireActiveRuntimeMember`
unfoldable pub require_active_runtime_member : Environment → String → Work String
unfolding require_text
require_active_runtime_member env member_id = do
  normalized ← require_text (some member_id) "assigneeMemberId"
  guard (is_enabled (find_by employee_id normalized env.employees))
      (assignee_unavailable normalized)
  pure normalized
