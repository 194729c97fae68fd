-- ===== src/Requests.antt =====
-- framework.FieldData of the OpenBao SDK: the fields of a request, with their values as the SDK decodes
-- them by the schema of the handler; and stringFromField and boolFromField of path_associations.go.
use openbao_plugin_secrets_s.Prelude.{
  Bool, false, List, [], ◌∷◌, Option, none, some, String, ◌==◌, if◌then◌else◌, string_eq, ℤ,
}
use openbao_plugin_secrets_s.Text.{chars, of_chars, trim_space}

-- `other_field` is a value of a type that no handler asks for.
pub data FieldValue : Type 0 where
  text_field : String → FieldValue
  bool_field : Bool → FieldValue
  int_field : ℤ → FieldValue
  list_field : List String → FieldValue
  map_field : List (String × String) → FieldValue
  other_field : FieldValue

abbrev pub FieldData : Type 0
FieldData = List (String × FieldValue)

-- `data.Raw[key]`, and `data.GetOk(key)`.
unfoldable pub get_ok : FieldData → String → Option FieldValue
get_ok [] key = none
get_ok ((k, v) ∷ rest) key = if k == key then some v else get_ok rest key

-- A value that is not of the schema's type cannot come from the SDK; it is read as missing.
abbrev pub as_text : Option FieldValue → Option String
as_text (some (text_field s)) = some s
as_text _ = none

abbrev pub as_bool : Option FieldValue → Option Bool
as_bool (some (bool_field b)) = some b
as_bool _ = none

abbrev pub as_int : Option FieldValue → Option ℤ
as_int (some (int_field n)) = some n
as_int _ = none

abbrev pub or_else {ℓ} : {A : Type ℓ} → A → Option A → A
or_else x none = x
or_else x (some y) = y

-- `data.Get(key).(string)` and `data.Get(key).(bool)`.
unfoldable pub get_text : FieldData → String → String
unfolding get_ok
get_text d key = or_else "" (as_text (get_ok d key))

unfoldable pub get_bool : FieldData → String → Bool
unfolding get_ok
get_bool d key = or_else false (as_bool (get_ok d key))

-- strings.TrimSpace.
abbrev pub trimmed : String → String
trimmed s = of_chars (trim_space (chars s))

unfoldable pub string_from_field : FieldData → String → String → String
unfolding get_text
string_from_field d key fallback =
    let value = trimmed (get_text d key) in if value == "" then fallback else value

unfoldable pub bool_from_field : FieldData → String → Bool → Bool
unfolding get_ok
bool_from_field d key fallback = or_else fallback (as_bool (get_ok d key))
