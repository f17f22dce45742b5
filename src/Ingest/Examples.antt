-- ===== src/Ingest/Examples.antt =====
-- An assignment with a description, and a submission with a blank body.
use paquitobot_rag.Prelude.{false, some, str_eq, if◌then◌else◌}
use paquitobot_rag.Value.{member}
use paquitobot_rag.Ingest.{nothing, text, Bleach, Assignment}

-- It takes a tag that is not allowed away.
abbrev bleach : Bleach
bleach = record {
  clean = λ tags _ _ s.
      if member "script" tags then s else if str_eq s "<script>An essay." then "An essay." else s;
  is_space = λ _. false;
}

abbrev essay : Assignment
essay = record {
  id = some "1";
  canvas_id = some 42;
  tenant_id = some "t";
  description = text "<script>An essay.";
  submission = some (text "");
  submission_body = nothing;
  body = nothing;
}
