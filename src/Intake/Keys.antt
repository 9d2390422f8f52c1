-- ===== src/Intake/Keys.antt =====
-- The idempotency keys of src/intake/intake-event-service.ts.
use Prim.Native.String.{String}
use mathlib.Core.Path.{◌≡◌, refl}
use mathlib.Core.List.{[], ◌∷◌}
use text.Mathlib.TextLemmas.{append_assoc, append-nil}
use tiny_office.Prelude.Text.{join}
use tiny_office.Intake.{EventInput, idempotency_key}

-- A part of a text that is moved across the bar, from the end of the category to the front of the
-- source, leaves the key as it is: different events can have one key.
pub idempotency_key-shifted :
    (input : EventInput) (part : String)
    → idempotency_key (record input { category = join (input.category ∷ "|" ∷ part ∷ []) })
      ≡ idempotency_key (record input { source = join (part ∷ "|" ∷ input.source ∷ []) })
unfolding idempotency_key
idempotency_key-shifted input part = simp (append_assoc, append-nil) refl
