-- ===== src/Registry/Html.antt =====
-- registry_watch.py: the text of a public page. The events that `HTMLParser` reports for a page are
-- the input; the parser itself is Python's.
pub mod Visible
use vice_ceo_proof_carrying.Json.{is_listed}
use vice_ceo_proof_carrying.Outcome.{Result, ok, registry_watch_error, require, ◌>>=◌, ◌>>◌}
use vice_ceo_proof_carrying.Prelude.{
  Bool, List, Option, String, [], if◌then◌else◌, nat_eq, none, not, some, string_eq, suc, ℕ, ◌&&◌,
  ◌++◌, ◌-◌, ◌==◌, ◌∷◌,
}
use vice_ceo_proof_carrying.Text.{join}

-- `tag.lower() in _IGNORED_TAGS`, for a tag that the parser has put in lower case.
unfoldable pub is_ignored_tag : String → Bool
unfolding is_listed
is_ignored_tag tag =
    is_listed tag ("script" ∷ "style" ∷ "template" ∷ "noscript" ∷ "svg" ∷ "canvas" ∷ [])

pub data HtmlEvent : Type 0 where
  start_tag end_tag data_text : String → HtmlEvent

-- The extractor: `_ignored_depth` and `_parts`.
pub record Extractor : Type 0 where
  pub ignored_depth : ℕ
  pub parts : List String

unfoldable pub handle_starttag : String → Extractor → Extractor
unfolding is_ignored_tag
handle_starttag tag x =
    if is_ignored_tag tag
    then record { ignored_depth = suc x.ignored_depth; parts = x.parts }
    else x

unfoldable pub handle_endtag : String → Extractor → Extractor
unfolding is_ignored_tag
handle_endtag tag x =
    if is_ignored_tag tag && not (x.ignored_depth == 0)
    then record { ignored_depth = x.ignored_depth - 1; parts = x.parts }
    else x

unfoldable pub handle_data : String → Extractor → Extractor
handle_data s x =
    if x.ignored_depth == 0
    then record { ignored_depth = x.ignored_depth; parts = x.parts ++ s ∷ [] }
    else x

unfoldable pub handle : HtmlEvent → Extractor → Extractor
unfolding handle_starttag handle_endtag handle_data
handle (start_tag tag) x = handle_starttag tag x
handle (end_tag tag) x = handle_endtag tag x
handle (data_text s) x = handle_data s x

-- `feed`: the events in order.
unfoldable pub feed : List HtmlEvent → Extractor → Extractor
unfolding handle
feed [] x = x
feed (e ∷ es) x = feed es (handle e x)

abbrev pub new_extractor : Extractor
new_extractor = record { ignored_depth = 0; parts = [] }

-- `visible_text`
unfoldable pub visible_text : Extractor → String
unfolding join
visible_text x = join " " x.parts

-- `_normalize_public_source_content`, of the events of a page or of plain text; `clean` is
-- `" ".join(value.replace("\x00", " ").split())`.
unfoldable pub normalize_public_source_content :
    (String → String) → Option (List HtmlEvent) → String → Result String
unfolding visible_text feed
normalize_public_source_content clean html value = do
  let normalized =
      clean (elim html [ none ↦ value | some events ↦ visible_text (feed events new_extractor) ])
  require (not (normalized == "")) (registry_watch_error "registry_source_content_empty")
  ok normalized
