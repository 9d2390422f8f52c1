-- ===== src/Chat/Language.antt =====
-- src/runtime/language/preferred-language.ts: the language of a text, and of a company.
use Prim.Native.Char.{Char, code}
use Prim.Native.String.{String}
use tiny_office.Prelude.{
  ℕ, suc, Bool, false, Option, none, some, ◌&&◌, ◌||◌, ◌==◌, leb, eqb, first_some, or_else,
  if◌then◌else◌,
}
use tiny_office.Prelude.Text.{trim, optional_text}

abbrev is_between : ℕ → ℕ → ℕ → Bool
is_between low high c = leb low c && leb c high

abbrev is_letter : ℕ → Bool
is_letter c = is_between b'A' b'Z' c || is_between b'a' b'z' c

abbrev is_alphanumeric : ℕ → Bool
is_alphanumeric c = is_letter c || is_between b'0' b'9' c

-- `LANGUAGE_TAG_PATTERN`: after `n` characters of a later part
unfoldable pub is_tag_part : ℕ → String → Bool
is_tag_part n String.[] = is_between 2 8 n
is_tag_part n (String.◌∷◌ c s) =
    let longer = is_tag_part (suc n) s in
    let next = is_tag_part 0 s in
    if is_alphanumeric (code c) then longer else eqb (code c) b'-' && is_between 2 8 n && next

-- after `n` letters of the first part
unfoldable pub is_tag_from : ℕ → String → Bool
unfolding is_tag_part
is_tag_from n String.[] = is_between 2 3 n
is_tag_from n (String.◌∷◌ c s) =
    let longer = is_tag_from (suc n) s in
    if is_letter (code c) then longer else eqb (code c) b'-' && is_between 2 3 n && is_tag_part 0 s

abbrev tagged : Option String → Option String
tagged none = none
tagged (some s) = if is_tag_from 0 s then some s else none

unfoldable pub normalize_preferred_language : Option String → Option String
unfolding is_tag_from
normalize_preferred_language value = tagged (optional_text value)

abbrev any_between : ℕ → ℕ → String → Bool
any_between low high String.[] = false
any_between low high (String.◌∷◌ c s) = is_between low high (code c) || any_between low high s

abbrev any_letter : String → Bool
any_letter String.[] = false
any_letter (String.◌∷◌ c s) = is_letter (code c) || any_letter s

unfoldable pub infer_preferred_language_from_text : String → Option String
infer_preferred_language_from_text text =
    if trim text == ""
    then none
    else if any_between 12352 12543 text
    then some "ja"
    else if any_between 44032 55215 text
    then some "ko"
    else if any_between 19968 40959 text
    then some "zh-CN"
    else if any_letter text
    then some "en-US"
    else none

-- `resolvePreferredLanguage` for a text and the default of the process
unfoldable pub resolve_preferred_language : String → Option String → String
unfolding infer_preferred_language_from_text normalize_preferred_language
resolve_preferred_language text default_language =
    or_else
      (first_some (infer_preferred_language_from_text text)
        (normalize_preferred_language default_language))
      "zh-CN"

abbrev is_code : ℕ → ℕ → Char → Bool
is_code upper lower c = eqb (code c) upper || eqb (code c) lower

-- `language.toLowerCase().startsWith("zh")`
unfoldable pub prefers_chinese : String → Bool
prefers_chinese String.[] = false
prefers_chinese (String.◌∷◌ c String.[]) = false
prefers_chinese (String.◌∷◌ c (String.◌∷◌ d s)) = is_code b'Z' b'z' c && is_code b'H' b'h' d
