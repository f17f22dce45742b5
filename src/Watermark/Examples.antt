-- ===== src/Watermark/Examples.antt =====
-- A watermark that is advanced twice.
use paquitobot_rag.Prelude.{◌≡◌, refl, true, false, none, some, []}
use paquitobot_rag.Exec.{ok, ◌>>=◌}
use paquitobot_rag.Query.{select, scalar_one_or_none}
use paquitobot_rag.Session.{Server, Session, set_states}
use paquitobot_rag.Watermark.{find_state, stamp, first_state, advance_watermark}

abbrev server : Server
server = record {
  uuid4 = λ n. n;
  now = λ n. n;
  accepts = λ _. true;
  commits = λ _. true;
  try_advisory = λ _ _. true;
}

abbrev empty : Session
empty = record {
  sid = 1;
  postgres = false;
  db = record { tables = λ _. []; states = [] };
  durable = record { tables = λ _. []; states = [] };
  in_transaction = true;
  tick = 0;
  process = record { registry = λ _. none; info = λ _. [] };
}

abbrev advanced : Session
advanced = (advance_watermark 4 "users" server 70 "ok" none (some 71) empty).1

advanced_state :
    (find_state 4 "users" advanced).0 ≡ ok (some (stamp 70 71 "ok" none (first_state 4 "users")))
unfolding find_state advance_watermark select scalar_one_or_none ◌>>=◌ set_states
advanced_state = refl
