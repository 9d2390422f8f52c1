-- ===== src/Work/Invariant/Checks.antt =====
-- The checks that the operations begin with change nothing, and what they let through.
use tiny_office.Prelude.{String, subst, ◌≡◌, Bool, true, Option, none, some}
use tiny_office.Prelude.Exec.{require, guard}
use tiny_office.Prelude.Exec.Ensures.{Ensures-pure, Ensures-require, Ensures-guard, Ensures-bind}
use tiny_office.Work.Environment.{
  Environment, Error, require_text, require_iso_timestamp, require_active_runtime_member,
}
use tiny_office.Work.Invariant.{Safe, Each}

Each_at : {A : Type 0} (P : A → Type 0) (o : Option A) → Each P o → (a : A) → o ≡ some a → P a
Each_at P none h a e = cc
Each_at P (some b) h a e = subst P (cc e) h

pub require-Safe :
    {A : Type 0} (P : A → Type 0) (o : Option A) (e : Error) → Each P o → Safe (require o e) P
require-Safe P o e h = Ensures-require o e (Each_at P o h)

pub guard-Safe : (b : Bool) (e : Error) → Safe (guard b e) (λ _. b ≡ true)
guard-Safe b e = Ensures-guard b e

pub require_text-Safe :
    (o : Option String) (field : String) → Safe (require_text o field) (λ _. Unit)
unfolding require_text
require_text-Safe o field = Ensures-require _ _ (λ _ _. tt)

pub require_iso_timestamp-Safe :
    (env : Environment) (o : Option String) (field : String)
    → Safe (require_iso_timestamp env o field) (λ _. Unit)
unfolding require_iso_timestamp
require_iso_timestamp-Safe env o field =
    Ensures-bind {Q = λ _. Unit} _ _ (Ensures-require _ _ (λ _ _. tt)) λ t _.
      Ensures-bind {Q = λ _. Unit} _ _ (Ensures-require _ _ (λ _ _. tt))
        λ n _. Ensures-bind _ _ (guard-Safe _ _) λ _ _. Ensures-pure _ tt

pub require_active_runtime_member-Safe :
    (env : Environment) (id : String) → Safe (require_active_runtime_member env id) (λ _. Unit)
unfolding require_active_runtime_member
require_active_runtime_member-Safe env id =
    Ensures-bind {Q = λ _. Unit} _ _ (Ensures-require _ _ (λ _ _. tt))
      λ t _. Ensures-bind _ _ (guard-Safe _ _) λ _ _. Ensures-pure _ tt
