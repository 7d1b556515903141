-- ===== src/Registry/Html/Visible.antt =====
-- registry_watch.py: what is extracted from a well-nested page.
use mathlib.Core.List.{append-nil, append_assoc}
use vice_ceo_proof_carrying.Prelude.{
  Bool-cases, List, String, [], ap, arith, false, if◌then◌else◌, inl, inr, refl, suc, sym, true,
  zero, ℕ, ◌++◌, ◌∙◌, ◌∷◌, ◌≡◌,
}
use vice_ceo_proof_carrying.Provider.Evidence.{shown}
use vice_ceo_proof_carrying.Registry.Html.{
  Extractor, HtmlEvent, data_text, end_tag, feed, handle, handle_data, handle_endtag,
  handle_starttag, is_ignored_tag, new_extractor, start_tag, visible_text,
}
use vice_ceo_proof_carrying.Text.{join}

mutual
  -- A page: texts, and elements that are closed where they end.
  pub data Node : Type 0 where
    words : String → Node
    element : String → Nodes → Node

  pub data Nodes : Type 0 where
    no_nodes : Nodes
    then_node : Node → Nodes → Nodes

-- The events that a page gives.
unfoldable mutual
  pub events_of : Node → List HtmlEvent
  events_of (words s) = data_text s ∷ []
  events_of (element tag inside) = start_tag tag ∷ (events_of_all inside ++ end_tag tag ∷ [])

  pub events_of_all : Nodes → List HtmlEvent
  events_of_all no_nodes = []
  events_of_all (then_node n ns) = events_of n ++ events_of_all ns

-- The texts that stand under no hidden tag, in order.
unfoldable mutual
  unfolding is_ignored_tag

  pub shown_in : Node → List String
  shown_in (words s) = s ∷ []
  shown_in (element tag inside) =
      let within = shown_in_all inside in if is_ignored_tag tag then [] else within

  pub shown_in_all : Nodes → List String
  shown_in_all no_nodes = []
  shown_in_all (then_node n ns) = shown_in n ++ shown_in_all ns

feed-append : (es fs : List HtmlEvent) (x : Extractor) → feed (es ++ fs) x ≡ feed fs (feed es x)
unfolding feed
feed-append [] fs x = refl
feed-append (e ∷ es) fs x = feed-append es fs (handle e x)

-- What a page adds, at a depth of hidden tags.
abbrev added : ℕ → List String → List String → List String
added zero parts shown = parts ++ shown
added (suc depth) parts shown = parts

-- The end tag after an element's inside.
feed_element :
    (tag : String) (inside : List HtmlEvent) (x : Extractor)
    → feed (start_tag tag ∷ (inside ++ end_tag tag ∷ [])) x
      ≡ handle_endtag tag (feed inside (handle_starttag tag x))
unfolding feed handle
feed_element tag inside x = feed-append inside (end_tag tag ∷ []) (handle_starttag tag x)

abbrev at_depth : ℕ → List String → Extractor
at_depth depth parts = record { ignored_depth = depth; parts = parts }

handle_data-added :
    (s : String) (depth : ℕ) (parts : List String)
    → handle_data s (at_depth depth parts) ≡ at_depth depth (added depth parts (s ∷ []))
unfolding handle_data
handle_data-added s zero parts = refl
handle_data-added s (suc depth) parts = ground arith

handle_starttag-hidden :
    (tag : String) (depth : ℕ) (parts : List String)
    → is_ignored_tag tag ≡ true
    → handle_starttag tag (at_depth depth parts) ≡ at_depth (suc depth) parts
unfolding handle_starttag
handle_starttag-hidden tag depth parts hidden = rw hidden refl

handle_endtag-hidden :
    (tag : String) (depth : ℕ) (parts : List String)
    → is_ignored_tag tag ≡ true
    → handle_endtag tag (at_depth (suc depth) parts) ≡ at_depth depth parts
unfolding handle_endtag
handle_endtag-hidden tag depth parts hidden = rw hidden (ground arith)

handle_starttag-other :
    (tag : String) (x : Extractor) → is_ignored_tag tag ≡ false → handle_starttag tag x ≡ x
unfolding handle_starttag
handle_starttag-other tag x other = rw other refl

handle_endtag-other :
    (tag : String) (x : Extractor) → is_ignored_tag tag ≡ false → handle_endtag tag x ≡ x
unfolding handle_endtag
handle_endtag-other tag x other = rw other refl

added-none : (depth : ℕ) (parts : List String) → added depth parts [] ≡ parts
added-none zero parts = append-nil parts
added-none (suc depth) parts = refl

added-append :
    (depth : ℕ) (parts some_shown more : List String)
    → added depth (added depth parts some_shown) more ≡ added depth parts (some_shown ++ more)
added-append zero parts some_shown more = append_assoc parts some_shown more
added-append (suc depth) parts some_shown more = refl

mutual
  unfolding events_of events_of_all shown_in shown_in_all feed handle

  feed-events_of :
      (n : Node) (depth : ℕ) (parts : List String)
      → feed (events_of n) (at_depth depth parts) ≡ at_depth depth (added depth parts (shown_in n))
  feed-events_of (words s) depth parts = handle_data-added s depth parts
  feed-events_of (element tag inside) depth parts = elim (Bool-cases (is_ignored_tag tag)) [
    | inl hidden ↦
        feed_element tag (events_of_all inside) (at_depth depth parts)
        ∙ rw
            (
              handle_starttag-hidden tag depth parts hidden,
              feed-events_of_all inside (suc depth) parts,
              handle_endtag-hidden tag depth parts hidden,
              hidden,
              added-none depth parts,
            )
            refl
    | inr other ↦
        feed_element tag (events_of_all inside) (at_depth depth parts)
        ∙ rw
            (
              handle_starttag-other tag (at_depth depth parts) other,
              feed-events_of_all inside depth parts,
              handle_endtag-other tag (at_depth depth (added depth parts (shown_in_all inside)))
                  other,
              other,
            )
            refl
  ]

  feed-events_of_all :
      (ns : Nodes) (depth : ℕ) (parts : List String)
      → feed (events_of_all ns) (at_depth depth parts)
        ≡ at_depth depth (added depth parts (shown_in_all ns))
  feed-events_of_all no_nodes depth parts = ap (at_depth depth) (sym (added-none depth parts))
  feed-events_of_all (then_node n ns) depth parts =
      feed-append (events_of n) (events_of_all ns) (at_depth depth parts)
      ∙ ap (feed (events_of_all ns)) (feed-events_of n depth parts)
      ∙ feed-events_of_all ns depth (added depth parts (shown_in n))
      ∙ ap (at_depth depth) (added-append depth parts (shown_in n) (shown_in_all ns))

-- On a well-nested page, whatever its depth and however hidden tags stand in one another, the
-- extracted text is exactly the texts that stand under no hidden tag, in order, joined by blanks.
pub visible_text-page :
    (page : Nodes)
    → visible_text (feed (events_of_all page) new_extractor) ≡ join " " (shown_in_all page)
unfolding visible_text
visible_text-page page = ap visible_text (feed-events_of_all page 0 [])
