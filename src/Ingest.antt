-- ===== src/Ingest.antt =====
-- app/services/ingest_service.py. `bleach.clean`, which strips comments here, and Python's classes of
-- characters are parameters; an attribute that is absent or None is `nothing`, or `none`.
pub mod Chunks
pub mod Examples
use Prim.Native.Char.{Char}
use paquitobot_rag.Prelude.{
  ℕ, String, Bool, true, false, Option, none, some, List, [], ◌∷◌, ◌++◌, str_eq, if◌then◌else◌,
}
use paquitobot_rag.Text.{strip_of}

-- A text, or what `str` makes of something else
pub data Given : Type 0 where
  nothing : Given
  text : String → Given
  other : String → Given

abbrev pub Attributes : Type 0
Attributes = List (String × List String)

pub record Bleach : Type 0 where
  pub clean : List String → Attributes → Bool → String → String
  pub is_space : Char → Bool

abbrev pub strip_all_tags : List String
strip_all_tags = []

abbrev pub strip_all_attrs : Attributes
strip_all_attrs = []

abbrev pub readable_tags : List String
readable_tags = "p" ∷ "br" ∷ "strong" ∷ "em" ∷ "ul" ∷ "ol" ∷ "li" ∷ "a" ∷ []

abbrev pub readable_attrs : Attributes
readable_attrs = ("a", "href" ∷ []) ∷ []

abbrev pub or_empty : {A : Type 0} → Option (List A) → List A
or_empty none = []
or_empty (some xs) = xs

-- A chunk, as a `Document` with the four keys of its metadata.
pub record Chunk : Type 0 where
  pub page_content : String
  pub source : String
  pub tenant_id : String
  pub canvas_id : Option ℕ
  pub assignment_id : String

-- An assignment; `submission` is an object with a body.
pub record Assignment : Type 0 where
  pub id : Option String
  pub canvas_id : Option ℕ
  pub tenant_id : Option String
  pub description : Given
  pub submission : Option Given
  pub submission_body : Given
  pub body : Given

module _ (bleach : Bleach) where
  -- `sanitize_html`
  unfoldable pub sanitize_html : Given → Option (List String) → Option Attributes → Bool → String
  sanitize_html nothing tags attrs strip = ""
  sanitize_html (text s) tags attrs strip = bleach.clean (or_empty tags) (or_empty attrs) strip s
  sanitize_html (other s) tags attrs strip = bleach.clean (or_empty tags) (or_empty attrs) strip s

  -- `strip_all` and `readable`
  unfoldable pub strip_all : Given → String
  unfolding sanitize_html
  strip_all given = sanitize_html given (some strip_all_tags) (some strip_all_attrs) true

  unfoldable pub readable : Given → String
  unfolding sanitize_html
  readable given = sanitize_html given (some readable_tags) (some readable_attrs) false

  -- `_safe_str`
  unfoldable pub safe_str : Option String → String
  safe_str none = ""
  safe_str (some value) = strip_of bleach.is_space value

  abbrev fallback_body : Given → Given → Given
  fallback_body nothing fallback = fallback
  fallback_body (text s) fallback = text s
  fallback_body (other s) fallback = other s

  -- `_resolve_submission_body`
  unfoldable pub resolve_submission_body : Option Given → Given → Given → Given
  resolve_submission_body none direct fallback = fallback_body direct fallback
  resolve_submission_body (some submission) direct fallback =
      fallback_body submission (fallback_body direct fallback)

  abbrev pub chunk_of : Assignment → String → String → Chunk
  chunk_of assignment source content = record {
    page_content = content;
    source = source;
    tenant_id = safe_str assignment.tenant_id;
    canvas_id = assignment.canvas_id;
    assignment_id = safe_str assignment.id;
  }

  abbrev pub is_blank : String → Bool
  is_blank content = str_eq (strip_of bleach.is_space content) ""

  -- `if description.strip(): documents.append(…)`
  unfoldable pub unless_blank : Assignment → String → String → List Chunk
  unless_blank assignment source content =
      if is_blank content then [] else chunk_of assignment source content ∷ []

  -- `prepare_assignment_chunks`
  unfoldable pub prepare_assignment_chunks : Option Assignment → List Chunk
  unfolding unless_blank sanitize_html resolve_submission_body
  prepare_assignment_chunks none = []
  prepare_assignment_chunks (some assignment) =
      unless_blank assignment "assignment_description"
        (sanitize_html assignment.description (some readable_tags) (some readable_attrs) false)
      ++ unless_blank assignment "submission_body" (
          sanitize_html
            (resolve_submission_body assignment.submission assignment.submission_body
              assignment.body)
            (some readable_tags) (some readable_attrs) false)
