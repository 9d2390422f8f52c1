-- ===== src/Prelude/Json.antt =====
-- The values of a dynamic language that metadata holds, and objects as association lists.
use Prim.Native.Nat.{ℕ}
use Prim.Native.String.{String}
use mathlib.Core.Bool.{Bool}
use mathlib.Core.Path.{◌≡◌, refl}
use mathlib.Core.Option.{Option, none, some}
use mathlib.Core.List.{List, [], ◌∷◌}
use native.Mathlib.Omega.{arith}
use text.Mathlib.Text.{◌==◌}
use text.Mathlib.TextEquality.{eq_iff}
use tiny_office.Prelude.Tests.{if◌then◌else◌}

mutual
  pub data Json : Type 0 where
    undefined : Json
    null : Json
    bool : Bool → Json
    number : ℕ → Json
    string : String → Json
    array : Items → Json
    object : Fields → Json

  pub data Items : Type 0 where
    nil : Items
    cons : Json → Items → Items

  pub data Fields : Type 0 where
    end : Fields
    field : String → Json → Fields → Fields

-- `Record<string, unknown>`
abbrev pub Metadata : Type 0
Metadata = List (String × Json)

-- `m[key]`
unfoldable pub get_field : String → Metadata → Json
get_field k [] = undefined
get_field k ((j, v) ∷ m) = if j == k then v else get_field k m

-- `o[key]` on an object
unfoldable pub get_member : String → Fields → Json
get_member k end = undefined
get_member k (field j v rest) = if j == k then v else get_member k rest

-- `{ ...m, [key]: v }`
unfoldable pub set_field : String → Json → Metadata → Metadata
set_field k v [] = (k, v) ∷ []
set_field k v ((j, w) ∷ m) = if j == k then (k, v) ∷ m else (j, w) ∷ set_field k v m

pub get_field-set_field :
    (j k : String) (v : Json) (m : Metadata)
    → get_field j (set_field k v m) ≡ (if k == j then v else get_field j m)
unfolding get_field set_field
get_field-set_field j k v [] = refl
get_field-set_field j k v ((i, w) ∷ m) =
    ground (arith, eq_iff k j, eq_iff i k, eq_iff i j, get_field-set_field j k v m)

-- An optional text as a field's value.
abbrev pub optional_json : Option String → Json
optional_json none = undefined
optional_json (some s) = string s
