-- ===== src/Ingest/Chunks.antt =====
-- What the chunks of an assignment are.
use paquitobot_rag.Prelude.{◌≡◌, ◌⊎◌, String, Bool, false, List, [], ◌∷◌, ◌++◌, if◌then◌else◌}
use paquitobot_rag.Ingest.{
  Given, nothing, text, other, Bleach, Assignment, Chunk, resolve_submission_body, safe_str,
  is_blank,
}

-- The sources of the texts that are not blank, the description's first
abbrev pub told_sources : Bool → Bool → List String
told_sources description_blank body_blank =
    (if description_blank then [] else "assignment_description" ∷ [])
    ++ (if body_blank then [] else "submission_body" ∷ [])

module _ (bleach : Bleach) where
  -- What a text is to read as: what bleach leaves of it when it is given the eight tags, the `href` of
  -- links and no stripping; and nothing where there was none.
  unfoldable pub cleaned_text : Given → String
  cleaned_text nothing = ""
  cleaned_text (text s) =
      bleach.clean ("p" ∷ "br" ∷ "strong" ∷ "em" ∷ "ul" ∷ "ol" ∷ "li" ∷ "a" ∷ [])
        (("a", "href" ∷ []) ∷ []) false s
  cleaned_text (other s) =
      bleach.clean ("p" ∷ "br" ∷ "strong" ∷ "em" ∷ "ul" ∷ "ol" ∷ "li" ∷ "a" ∷ [])
        (("a", "href" ∷ []) ∷ []) false s

module _ (bleach : Bleach) (assignment : Assignment) where
  abbrev pub body_of : Given
  body_of =
      resolve_submission_body bleach assignment.submission assignment.submission_body
        assignment.body

  -- A chunk is one of the two texts of the assignment, cleaned, is not blank, and has its tenant.
  pub record IsChunk (chunk : Chunk) : Type 0 where
    pub not_blank : is_blank bleach chunk.page_content ≡ false
    pub of_tenant : chunk.tenant_id ≡ safe_str bleach assignment.tenant_id
    pub cleaned :
        (chunk.page_content ≡ cleaned_text bleach assignment.description)
        ⊎ (chunk.page_content ≡ cleaned_text bleach body_of)
