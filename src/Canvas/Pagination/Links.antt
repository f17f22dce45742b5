-- ===== src/Canvas/Pagination/Links.antt =====
-- The `Link` headers of app/canvas/pagination.py, and the keys that its loop does not use. Python's
-- classes of characters are a parameter, and so are the links that httpx finds.
use Prim.Native.Char.{Char, code}
use Prim.Native.String.{◌++◌ as append}
use paquitobot_rag.Prelude.{
  ◌≡◌, String, Bool, false, Option, none, some, List, [], ◌∷◌, All, ◌==◌, ◌||◌, ◌&&◌, not, str_eq,
  inl, inr, Bool-cases, if◌then◌else◌,
}
use paquitobot_rag.Text.{strip_of, split_on, has_any, before_first, after_first}
use paquitobot_rag.Rag.{put, lookup}
use paquitobot_rag.Canvas.Pagination.{Urllib, pairs, with_query}

module _ (is_space : Char → Bool) where
  abbrev is_comma : Char → Bool
  is_comma c = code c == 44

  abbrev is_separator : Char → Bool
  is_separator c = code c == 59

  abbrev is_equals : Char → Bool
  is_equals c = code c == 61

  abbrev is_angle : Char → Bool
  is_angle c = code c == 60 || code c == 62

  abbrev is_quote : Char → Bool
  is_quote c = code c == 34

  -- `rels[value.strip().strip('"')] = url`, if the parameter is a `rel` with a value
  unfoldable pub add_rel : String → String → List (String × String) → List (String × String)
  add_rel url param rels =
      let key = before_first is_equals (strip_of is_space param) in
      let value = after_first is_equals (strip_of is_space param) in
      if str_eq key "rel" && not (str_eq value "")
      then put (strip_of is_quote (strip_of is_space value)) url rels
      else rels

  unfoldable pub add_rels : String → List String → List (String × String) → List (String × String)
  unfolding add_rel
  add_rels url [] rels = rels
  add_rels url (param ∷ params) rels = add_rels url params (add_rel url param rels)

  abbrev url_of : String → String
  url_of url_part = strip_of is_space (strip_of is_angle (strip_of is_space url_part))

  abbrev with_url : String → List String → List (String × String) → List (String × String)
  with_url url params rels = if str_eq url "" then rels else add_rels url params rels

  abbrev add_pieces : List String → List (String × String) → List (String × String)
  add_pieces [] rels = rels
  add_pieces (url_part ∷ params) rels = with_url (url_of url_part) params rels

  unfoldable pub add_section : String → List (String × String) → List (String × String)
  unfolding add_rels
  add_section section rels =
      if str_eq section "" || not (has_any is_separator section)
      then rels
      else add_pieces (split_on is_separator section) rels

  unfoldable pub add_sections : List String → List (String × String) → List (String × String)
  unfolding add_section
  add_sections [] rels = rels
  add_sections (part ∷ parts) rels = add_sections parts (add_section (strip_of is_space part) rels)

  -- `_parse_link_header`
  unfoldable pub parse_link_header : Option String → List (String × String)
  unfolding add_sections
  parse_link_header none = []
  parse_link_header (some header) =
      if str_eq header "" then [] else add_sections (split_on is_comma header) []

  abbrev or_header : Option String → Option String → Option String
  or_header none other = other
  or_header (some raw) other = if str_eq raw "" then other else some raw

  -- `_extract_next_url`, with the `next` that `response.links` has, and the two spellings
  unfoldable pub extract_next_url : Option String → Option String → Option String → Option String
  unfolding parse_link_header
  extract_next_url (some next) link other_link = some next
  extract_next_url none link other_link =
      lookup "next" (parse_link_header (or_header link other_link))

  -- No relation is without a URL.
  abbrev pub HasUrls : List (String × String) → Type 0
  HasUrls = All (λ rel. str_eq rel.1 "" ≡ false)

  put-HasUrls :
      (key url : String) (rels : List (String × String))
      → str_eq url "" ≡ false
      → HasUrls rels
      → HasUrls (put key url rels)
  unfolding put
  put-HasUrls key url [] given all = (given, tt)
  put-HasUrls key url ((k, v) ∷ rels) given (here, all) = elim (Bool-cases (str_eq k key)) [
    | inl same ↦ rw (same) (given, all)
    | inr other ↦ rw (other) (here, put-HasUrls key url rels given all)
  ]

  add_rels-HasUrls :
      (url : String) (params : List String) (rels : List (String × String))
      → str_eq url "" ≡ false
      → HasUrls rels
      → HasUrls (add_rels url params rels)
  unfolding add_rels add_rel
  add_rels-HasUrls url [] rels given all = all
  add_rels-HasUrls url (param ∷ params) rels given all =
      add_rels-HasUrls url params (add_rel url param rels) given
        (elim (Bool-cases (
          str_eq (before_first is_equals (strip_of is_space param)) "rel"
          && not (str_eq (after_first is_equals (strip_of is_space param)) ""))) [
            | inl named ↦ rw (named) (put-HasUrls _ url rels given all)
            | inr other ↦ rw (other) all
          ])

  add_section-HasUrls :
      (section : String) (rels : List (String × String))
      → HasUrls rels
      → HasUrls (add_section section rels)
  unfolding add_section
  add_section-HasUrls section rels all =
      elim (Bool-cases (str_eq section "" || not (has_any is_separator section))) [
        | inl skipped ↦ rw (skipped) all
        | inr read ↦ rw (read) (pieces (split_on is_separator section))
      ]
    where
      pieces : (parts : List String) → HasUrls (add_pieces parts rels)
      pieces [] = all
      pieces (url_part ∷ params) = elim (Bool-cases (str_eq (url_of url_part) "")) [
        | inl empty ↦ rw (empty) all
        | inr given ↦ rw (given) (add_rels-HasUrls (url_of url_part) params rels given all)
      ]

  add_sections-HasUrls :
      (parts : List String) (rels : List (String × String))
      → HasUrls rels
      → HasUrls (add_sections parts rels)
  unfolding add_sections
  add_sections-HasUrls [] rels all = all
  add_sections-HasUrls (part ∷ parts) rels all =
      add_sections-HasUrls parts (add_section (strip_of is_space part) rels)
        (add_section-HasUrls (strip_of is_space part) rels all)

  pub parse_link_header-HasUrls : (header : Option String) → HasUrls (parse_link_header header)
  unfolding parse_link_header
  parse_link_header-HasUrls none = tt
  parse_link_header-HasUrls (some header) = elim (Bool-cases (str_eq header "")) [
    | inl empty ↦ rw (empty) tt
    | inr given ↦ rw (given) (add_sections-HasUrls (split_on is_comma header) [] tt)
  ]

-- `params.pop("page", None)`
unfoldable pub pop_page : List (String × List String) → List (String × List String)
pop_page [] = []
pop_page ((k, vs) ∷ params) =
    let rest = pop_page params in if str_eq k "page" then rest else (k, vs) ∷ rest

-- `_strip_query`, and `_dedup_key`, with a `parse_qs` that drops blank values
unfoldable pub strip_query : Urllib → String → String × List (String × List String)
strip_query u url = (url, u.parse_qs (u.urlparse url).query)

unfoldable pub dedup_key : Urllib → String → String
unfolding pop_page pairs
dedup_key u url =
    let p = u.urlparse url in
    with_query (append p.scheme (append "://" (append p.netloc p.path)))
      (u.urlencode (pairs (u.sorted (pop_page (u.parse_qs p.query)))))
