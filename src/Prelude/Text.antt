-- ===== src/Prelude/Text.antt =====
-- Texts as JavaScript handles them: `trim`, and the optional texts that the services normalise.
pub mod Trimming
use Prim.Native.Char.{Char, code}
use Prim.Native.String
use Prim.Native.String.{String, [], ◌∷◌}
use mathlib.Core.List.{List}
use mathlib.Core.Path.{◌≡◌, refl}
use mathlib.Core.Bool.{Bool, ◌||◌, ◌&&◌}
use mathlib.Core.Option.{Option, none, some}
use Prim.Native.Nat.{ℕ, zero, suc, ◌/◌, ◌%◌}
use text.Mathlib.Text.{◌==◌}
use tiny_office.Prelude.Tests.{if◌then◌else◌, leb, ltb, eqb}

-- The white space and line ends that `trim` takes off.
is_space : Char → Bool
is_space ch =
    let c = code ch in
    (leb 9 c && leb c 13)
    || eqb c 32
    || eqb c 160
    || eqb c 5760
    || (leb 8192 c && leb c 8202)
    || eqb c 8232
    || eqb c 8233
    || eqb c 8239
    || eqb c 8287
    || eqb c 12288
    || eqb c 65279

trim_start : String → String
trim_start [] = ""
trim_start (c ∷ s) = let rest = trim_start s in if is_space c then rest else c ∷ s

trim_end : String → String
trim_end [] = ""
trim_end (c ∷ s) = let rest = trim_end s in if is_space c && rest == "" then "" else c ∷ rest

-- `value.trim()`
unfoldable pub trim : String → String
unfolding is_space trim_start trim_end
trim s = trim_end (trim_start s)

-- `text || undefined`
abbrev pub nonempty : String → Option String
nonempty s = if s == "" then none else some s

-- `value?.trim() || undefined`
abbrev pub optional_text : Option String → Option String
optional_text none = none
optional_text (some s) = nonempty (trim s)

-- `parts.join("")`, and a template text by its parts
abbrev pub join : List String → String
join List.[] = ""
join (List.◌∷◌ s parts) = String.◌++◌ s (join parts)

abbrev digit_text : ℕ → String
digit_text n =
    if eqb n 0
    then "0"
    else if eqb n 1
    then "1"
    else if eqb n 2
    then "2"
    else if eqb n 3
    then "3"
    else if eqb n 4
    then "4"
    else if eqb n 5
    then "5"
    else if eqb n 6
    then "6"
    else if eqb n 7
    then "7"
    else if eqb n 8
    then "8"
    else "9"

-- One digit for each unit of fuel; a number has fewer digits than its value and one more.
decimal_from : ℕ → ℕ → String
decimal_from zero n = ""
decimal_from (suc fuel) n =
    let front = decimal_from fuel (n / 10) in
    if ltb n 10
    then digit_text n
    else join (List.◌∷◌ front (List.◌∷◌ (digit_text (n % 10)) List.[]))

-- A number in a template text.
unfoldable pub decimal : ℕ → String
unfolding decimal_from
decimal n = decimal_from (suc n) n

decimal_test : decimal 1207 ≡ "1207"
unfolding decimal
decimal_test = refl

trimmed : trim "  a b " ≡ "a b"
unfolding trim
trimmed = refl
