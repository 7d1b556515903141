-- ===== src/Registry/Sources.antt =====
-- registry_watch.py: the sources of `VICE_CEO_REGISTRY_SOURCES_JSON`. `json.loads` is a parameter.
pub mod Distinct
use vice_ceo_proof_carrying.Json.{
  Fields, Items, Json, all_present, array, cons, flag, is_listed, member, names_within, nil, null,
  number, object, text,
}
use vice_ceo_proof_carrying.Outcome.{
  Error, Result, ok, or_raise, raise, require, value_error, ◌>>=◌, ◌>>◌,
}
use vice_ceo_proof_carrying.Prelude.{
  List, Option, String, [], if◌then◌else◌, nat_eq, none, not, some, string_eq, ◌&&◌, ◌==◌, ◌∷◌,
}
use vice_ceo_proof_carrying.Provider.Evidence.{shown}
use vice_ceo_proof_carrying.Registry.Types.{RegistrySource, check_source}
use vice_ceo_proof_carrying.Text.{is_blank, strip}

abbrev required_fields : List String
required_fields = "source_id" ∷ "display_name" ∷ "canonical_url" ∷ "jurisdiction" ∷ []

abbrev all_fields : List String
all_fields =
    "source_id" ∷ "display_name" ∷ "canonical_url" ∷ "jurisdiction" ∷ "source_owner"
    ∷ "refresh_schedule" ∷ "operational_focus" ∷ []

abbrev value_invalid : Error
value_invalid = value_error "registry_source_configuration_value_invalid"

abbrev fields_invalid : Error
fields_invalid = value_error "registry_source_configuration_fields_invalid"

-- The stripped text of a value that is a text with more than blanks.
shown_text : Json → Result String
unfolding is_blank strip
shown_text (text s) = if is_blank s then raise value_invalid else ok (strip s)
shown_text null = raise value_invalid
shown_text (flag b) = raise value_invalid
shown_text (number n) = raise value_invalid
shown_text (array items) = raise value_invalid
shown_text (object fs) = raise value_invalid

-- `_required_config_string`
unfoldable pub required_config_string : Fields → String → Result String
unfolding shown_text member
required_config_string item name = elim (member name item) [
  | none ↦ raise value_invalid
  | some value ↦ shown_text value
]

-- `_optional_config_string`
unfoldable pub optional_config_string : Fields → String → String → Result String
unfolding shown_text member
optional_config_string item name default = elim (member name item) [
  | none ↦ shown_text (text default)
  | some value ↦ shown_text value
]

-- `isinstance(item, dict)`
abbrev item_fields : Json → Result Fields
item_fields (object fs) = ok fs
item_fields (array items) = raise fields_invalid
item_fields (text s) = raise fields_invalid
item_fields (number n) = raise fields_invalid
item_fields (flag b) = raise fields_invalid
item_fields null = raise fields_invalid

-- `RegistrySource(...)`, with its `__post_init__`.
unfoldable pub checked_source : RegistrySource → Result RegistrySource
unfolding check_source
checked_source s = do check_source s; ok s

-- The source of one item.
unfoldable pub source_of_item : Json → Result RegistrySource
unfolding required_config_string optional_config_string checked_source all_present names_within
source_of_item item = do
  fs ← item_fields item
  require (all_present required_fields fs && names_within fs all_fields) fields_invalid
  source_id ← required_config_string fs "source_id"
  display_name ← required_config_string fs "display_name"
  canonical_url ← required_config_string fs "canonical_url"
  jurisdiction ← required_config_string fs "jurisdiction"
  source_owner ← optional_config_string fs "source_owner" "Unspecified public owner"
  refresh_schedule ← optional_config_string fs "refresh_schedule" "0 9 * * *"
  operational_focus ← optional_config_string fs "operational_focus" "public EPR program update"
  checked_source (record {
    source_id = source_id;
    display_name = display_name;
    canonical_url = canonical_url;
    jurisdiction = jurisdiction;
    source_owner = source_owner;
    refresh_schedule = refresh_schedule;
    operational_focus = operational_focus;
  })

-- The loop over the items, with the ids seen so far.
unfoldable pub sources_of_items : List String → Items → Result (List RegistrySource)
unfolding source_of_item is_listed
sources_of_items seen nil = ok []
sources_of_items seen (cons item items) = do
  source ← source_of_item item
  require (not (is_listed source.source_id seen))
      (value_error "registry_source_configuration_duplicate_id")
  rest ← sources_of_items (source.source_id ∷ seen) items
  ok (source ∷ rest)

abbrev not_a_list : Error
not_a_list = value_error "registry_sources_json_must_be_nonempty_list"

-- `isinstance(parsed, list) and parsed`
abbrev nonempty_items : Json → Result Items
nonempty_items (array (cons item items)) = ok (cons item items)
nonempty_items (array nil) = raise not_a_list
nonempty_items (object fs) = raise not_a_list
nonempty_items (text s) = raise not_a_list
nonempty_items (number n) = raise not_a_list
nonempty_items (flag b) = raise not_a_list
nonempty_items null = raise not_a_list

-- `_required_environment`, of the variable's value, `""` where it is not set.
unfoldable pub required_environment : String → String → Result String
unfolding strip
required_environment missing value = do
  let shown = strip value
  require (not (shown == "")) (value_error missing)
  ok shown

-- `_registry_sources_from_environment`
unfoldable pub registry_sources_from_environment :
    (String → Option Json) → String → Result (List RegistrySource)
unfolding required_environment sources_of_items
registry_sources_from_environment loads value = do
  raw ← required_environment "vice_ceo_registry_sources_json_required" value
  parsed ← or_raise (loads raw) (value_error "registry_sources_json_invalid")
  items ← nonempty_items parsed
  sources_of_items [] items
