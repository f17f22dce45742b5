-- ===== src/Service/Throttle.antt =====
-- The rate limit of app/services/canvas_service.py on the manual runs of a tenant.
use paquitobot_rag.Prelude.{
  ℕ, suc, ◌+◌, ◌*◌, ◌≤◌, ◌<◌, max, ltb, ◌≡◌, ◌⊎◌, inl, inr, refl, sym, ap, ◌∙◌, Bool, true, false,
  Option, none, some, Bool-cases, arith,
}
use paquitobot_rag.Exec.{ok, err, sync_throttled, pure, raise, ◌>>=◌}
use paquitobot_rag.Models.{SyncState}
use paquitobot_rag.Session.{Server, Session, draw}
use paquitobot_rag.Service.{
  manual_sync, retry_after, last_run_of, autobegin, check_window, select_sync_state_last_run,
  stamp_manual_run, enforce_manual_rate_limit,
}
use paquitobot_rag.Watermark.{find_state, write_state, stamp}
use paquitobot_rag.Watermark.Laws.{old_state, find_state-write_state, ok-write_state}

-- The seconds that a throttled caller is told to wait: one at least, no more than a second too
-- many, and short by less than a millisecond.
pub retry_after-bounds :
    (minimum last_run now : ℕ)
    → now < last_run + minimum * 1000000
    → let wait = retry_after minimum last_run now in
      (1 ≤ wait)
      × (last_run + minimum * 1000000 < now + wait * 1000000 + 1000)
      × (now + wait * 1000000 < last_run + minimum * 1000000 + 1000000)
unfolding retry_after
retry_after-bounds minimum last_run now early = (omega arith, omega arith, omega arith)

module _ (server : Server) (t interval : ℕ) where
  abbrev pub drawn : Session → Session
  drawn s = record s { tick = suc s.tick }

  -- The last run is recent.
  abbrev pub is_early : Option ℕ → ℕ → Bool
  is_early none now = false
  is_early (some last_run) now = ltb now (last_run + max 1 interval * 1000000)

  abbrev pub time_of : Session → ℕ
  time_of s = server.now (autobegin s).tick

  -- The tenant's stamp is found where the session's transaction has begun.
  abbrev pub Finds : Session → Option SyncState → Type 0
  Finds s found = (find_state t manual_sync (autobegin s)).0 ≡ ok found

  pub enforce_early :
      (s : Session) (found : Option SyncState) (last_run : ℕ)
      → Finds s found
      → last_run_of found ≡ some last_run
      → is_early (some last_run) (time_of s) ≡ true
      → enforce_manual_rate_limit server t interval s ≡ (
        err (sync_throttled (retry_after (max 1 interval) last_run (time_of s))),
        drawn (autobegin s),
      )
  unfolding enforce_manual_rate_limit select_sync_state_last_run draw ◌>>=◌ find_state pure
      check_window raise
  enforce_early s found last_run e ran early = rw (e, ran, early) refl

  check_window_late :
      (o : Option ℕ) (now : ℕ) (s : Session)
      → is_early o now ≡ false
      → check_window server t (max 1 interval) o now s ≡ (ok tt, s)
  unfolding check_window pure
  check_window_late none now s late = refl
  check_window_late (some last_run) now s late = rw (late) refl

  pub enforce_late :
      (s : Session) (found : Option SyncState)
      → Finds s found
      → is_early (last_run_of found) (time_of s) ≡ false
      → enforce_manual_rate_limit server t interval s ≡ (
        ok (time_of s),
        (write_state t manual_sync
            (stamp (time_of s) (time_of s) "ok" none)
            found
            (drawn (autobegin s))).1,
      )
  unfolding enforce_manual_rate_limit select_sync_state_last_run stamp_manual_run draw ◌>>=◌
      find_state pure check_window
  enforce_late s found e late =
      let now = time_of s in
      rw
        (
          e,
          check_window_late (last_run_of found) now (drawn (autobegin s)) late,
          e,
          ok-write_state t manual_sync (stamp now now "ok" none) found (drawn (autobegin s)),
        )
        refl

  pub enforce_cases :
      (s : Session) (found : Option SyncState)
      → ((last_run : ℕ) × (last_run_of found ≡ some last_run)
          × (is_early (some last_run) (time_of s) ≡ true))
        ⊎ (is_early (last_run_of found) (time_of s) ≡ false)
  enforce_cases s none = inr refl
  enforce_cases s (some row) = go row.last_run_at refl
    where
      go :
          (o : Option ℕ)
          → row.last_run_at ≡ o
          → ((last_run : ℕ) × (row.last_run_at ≡ some last_run)
              × (is_early (some last_run) (time_of s) ≡ true))
            ⊎ (is_early row.last_run_at (time_of s) ≡ false)
      go none e = inr (rw (e) refl)
      go (some last_run) e = elim (Bool-cases (is_early (some last_run) (time_of s))) [
        | inl early ↦ inl (last_run, e, early)
        | inr late ↦ inr (rw (e) late)
      ]

  -- Two manual runs of a tenant that are let through, the second where the stamp of the first is
  -- found, are apart by the interval at least.
  pub enforce_manual_rate_limit_spaced :
      (s after : Session) (found : Option SyncState) (first second : ℕ)
      → Finds s found
      → (enforce_manual_rate_limit server t interval s).0 ≡ ok first
      → (find_state t manual_sync (autobegin after)).0
        ≡ (find_state t manual_sync (enforce_manual_rate_limit server t interval s).1).0
      → (enforce_manual_rate_limit server t interval after).0 ≡ ok second
      → first + max 1 interval * 1000000 ≤ second
  unfolding find_state
  enforce_manual_rate_limit_spaced s after found first second e passed kept again =
      elim (enforce_cases s found) [
        | inl (last_run, ran, early) ↦
            let blocked = enforce_early s found last_run e ran early in cc
        | inr late ↦
            let run = enforce_late s found e late in
            let now = time_of s in
            let stamped =
              find_state-write_state t manual_sync (stamp now now "ok" none) found
                (drawn (autobegin s)) (λ x. (refl, refl)) e in
            let there = kept ∙ ap (λ p. (find_state t manual_sync p.1).0) run ∙ stamped in
            let row = stamp now now "ok" none (old_state t manual_sync found) in
            elim (enforce_cases after (some row)) [
              | inl (last_run, ran, early) ↦
                  let blocked = enforce_early after (some row) last_run there ran early in cc
              | inr late' ↦
                  let run' = enforce_late after (some row) there late' in
                  let is_first = sym (ap (λ p. p.0) run) ∙ passed in
                  let is_second = sym (ap (λ p. p.0) run') ∙ again in
                  ground (arith, is_first, is_second, late')
            ]
      ]
