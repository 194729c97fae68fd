-- ===== src/Naming.antt =====
-- internal/backend/storage_records.go, granularity.go and association_policy.go: source paths,
-- object names and the destination policy. `none` and `false` are errors, without their text.
pub mod Allowed
use openbao_plugin_secrets_s.Prelude.{
  Bool, true, false, not, ◌&&◌, ◌||◌, List, [], ◌∷◌, ◌++◌, Option, none, some, String, ◌==◌,
  if◌then◌else◌, string_eq, nat_eq, ltb, leb,
}
use openbao_plugin_secrets_s.Records.{AssociationRecord, DestinationRecord, GlobalConfig}
use openbao_plugin_secrets_s.Config.{destination_constraints_required}
use openbao_plugin_secrets_s.Text.{
  chars, of_chars, char_eq, is_space, has_prefix, contains_text, trim_left, trim_right, trim, split,
  join, replace_from,
}
use Prim.Native.Char.{Char, code}
use Prim.Native.String as NativeString

infixl 5 ◌>>=◌
abbrev pub ◌>>=◌ {ℓ κ} : {A : Type ℓ} {B : Type κ} → Option A → (A → Option B) → Option B
none >>= f = none
some a >>= f = f a

abbrev slash : Char
slash = "/"

abbrev text_eq : List Char → String → Bool
text_eq s t = of_chars s == t

-- The two rejections of the loop of `normalizeSourcePath`.
unfoldable pub is_valid_segment : List Char → Bool
is_valid_segment part =
    not (text_eq part "" || text_eq part "." || text_eq part "..") && not (text_eq part "versions")

unfoldable pub are_valid_segments : List (List Char) → Bool
unfolding is_valid_segment
are_valid_segments [] = true
are_valid_segments (part ∷ parts) = is_valid_segment part && are_valid_segments parts

unfoldable pub is_reserved_suffix : List Char → Bool
is_reserved_suffix part =
    text_eq part "plan" || text_eq part "disable" || text_eq part "enable" || text_eq part "sync"

unfoldable pub ends_reserved : List (List Char) → Bool
unfolding is_reserved_suffix
ends_reserved [] = false
ends_reserved (part ∷ []) = is_reserved_suffix part
ends_reserved (part ∷ next ∷ parts) = ends_reserved (next ∷ parts)

unfoldable pub normalize_segments : List (List Char) → Option (List Char)
normalize_segments parts =
    if not (are_valid_segments parts)
    then none
    else if ends_reserved parts
    then none
    else some (join slash parts)

unfoldable pub normalize_chars : List Char → Option (List Char)
unfolding normalize_segments
normalize_chars input =
    let path = trim slash input in
    if text_eq path "" then none else normalize_segments (split slash path)

unfoldable pub normalize_source_path : String → Option String
unfolding normalize_chars
normalize_source_path input = do path ← normalize_chars (chars input); some (of_chars path)

abbrev last_is_space : List Char → Bool
last_is_space [] = false
last_is_space (c ∷ []) = is_space c
last_is_space (c ∷ d ∷ s) = last_is_space (d ∷ s)

abbrev first_is_space : List Char → Bool
first_is_space [] = false
first_is_space (c ∷ s) = is_space c

-- `strings.TrimSpace(key) != key || key == ""`.
unfoldable pub is_blank_or_padded : String → Bool
is_blank_or_padded key = first_is_space (chars key) || last_is_space (chars key) || key == ""

unfoldable pub validate_secret_key_object_id : String → Bool
unfolding is_blank_or_padded
validate_secret_key_object_id key =
    not (is_blank_or_padded key)
    && not (contains_text (chars key) (chars "/") || key == "." || key == "..")

abbrev has_braces : List Char → Bool
has_braces s = contains_text s (chars "{{") || contains_text s (chars "}}")

unfoldable pub render_data_key_template : String → String → Option String
render_data_key_template template key =
    let rendered = replace_from 0 ((chars "{{ key }}", chars key) ∷ []) (chars template) in
    if has_braces rendered
    then none
    else if text_eq rendered ""
    then none
    else some (of_chars rendered)

unfoldable pub is_data_map_key_character : Char → Bool
is_data_map_key_character c =
    let n = code c in
    (leb b'a' n && leb n b'z')
    || (leb b'A' n && leb n b'Z')
    || (leb b'0' n && leb n b'9')
    || n == b'-'
    || n == b'_'
    || n == b'.'

unfoldable pub all_data_map_characters : List Char → Bool
unfolding is_data_map_key_character
all_data_map_characters [] = true
all_data_map_characters (c ∷ s) = is_data_map_key_character c && all_data_map_characters s

-- `len` counts bytes: it is the number of characters where all of them are of the set that the
-- last test asks for, and the outcome does not depend on the order of the tests.
unfoldable pub validate_data_map_key : String → Bool
unfolding is_blank_or_padded all_data_map_characters
validate_data_map_key key =
    not (is_blank_or_padded key)
    && not (ltb 253 (NativeString.len key))
    && not (key == "." || key == ".." || has_prefix (chars key) (chars ".."))
    && all_data_map_characters (chars key)

unfoldable pub render_association_object_name :
    String → String → String → String → String → Option String
render_association_object_name template path destination_type destination_name key =
    let pairs =
      (chars "{{ path }}", chars path)
      ∷ (chars "{{ key }}", chars key)
      ∷ (chars "{{ destination.type }}", chars destination_type)
      ∷ (chars "{{ destination.name }}", chars destination_name)
      ∷ [] in
    let rendered = replace_from 0 pairs (chars template) in
    if has_braces rendered
    then none
    else if text_eq (trim slash rendered) ""
    then none
    else some (of_chars (trim slash rendered))

abbrev pub secret_path : String
secret_path = "secret-path"

abbrev pub secret_key : String
secret_key = "secret-key"

unfoldable pub association_resolved_name_for_object : AssociationRecord → String → Option String
association_resolved_name_for_object r object_id =
    if r.granularity == secret_path
    then some r.resolved_name
    else if r.granularity == secret_key
    then (if validate_secret_key_object_id object_id
        then render_association_object_name r.name_template r.path r.destination_type
            r.destination_name object_id
        else none)
    else none

unfoldable pub secret_key_reservation_name : String → String → String → String → Option String
secret_key_reservation_name template path destination_type destination_name =
    render_association_object_name template path destination_type destination_name "${key}"

abbrev pub normalized_delete_mode : String → String
normalized_delete_mode mode = if mode == "" then "retain" else mode

abbrev pub normalized_data_mapping : String → String
normalized_data_mapping mapping = if mapping == "" then "payload" else mapping

-- `value == prefix || strings.HasPrefix(value, prefix+"/")`.
unfoldable pub is_under : List Char → List Char → Bool
is_under value prefix = of_chars value == of_chars prefix || has_prefix value (prefix ++ slash ∷ [])

unfoldable pub any_under : List Char → List String → Bool
unfolding is_under
any_under path [] = false
any_under path (prefix ∷ prefixes) = is_under path (chars prefix) || any_under path prefixes

abbrev is_empty {ℓ} : {A : Type ℓ} → List A → Bool
is_empty [] = true
is_empty (_ ∷ _) = false

unfoldable pub source_path_allowed : String → List String → Bool
unfolding any_under
source_path_allowed path prefixes =
    if is_empty prefixes then true else any_under (chars path) prefixes

unfoldable pub any_name_under : List Char → List String → Bool
unfolding is_under
any_name_under name [] = false
any_name_under name (prefix ∷ prefixes) =
    let trimmed = trim_right slash (chars prefix) in
    (not (text_eq trimmed "") && is_under name trimmed) || any_name_under name prefixes

unfoldable pub resolved_name_allowed : String → List String → Bool
unfolding any_name_under
resolved_name_allowed name prefixes =
    if is_empty prefixes then true else any_name_under (trim_left slash (chars name)) prefixes

abbrev pub destination_has_delegation_constraints : DestinationRecord → Bool
destination_has_delegation_constraints d =
    not (is_empty d.allowed_source_path_prefixes) && not (is_empty d.allowed_resolved_name_prefixes)

unfoldable pub validate_destination_delegation_constraints : DestinationRecord → GlobalConfig → Bool
validate_destination_delegation_constraints d cfg =
    not (destination_constraints_required cfg) || destination_has_delegation_constraints d

unfoldable pub validate_destination_policy_for_object :
    DestinationRecord → AssociationRecord → String → GlobalConfig → Bool
unfolding validate_destination_delegation_constraints
validate_destination_policy_for_object d r resolved_name cfg =
    validate_destination_delegation_constraints d cfg
    && source_path_allowed r.path d.allowed_source_path_prefixes
    && resolved_name_allowed resolved_name d.allowed_resolved_name_prefixes

-- `strings.TrimSpace(s) == ""`.
abbrev all_space : List Char → Bool
all_space [] = true
all_space (c ∷ s) = is_space c && all_space s

unfoldable pub is_all_space : String → Bool
is_all_space s = all_space (chars s)
