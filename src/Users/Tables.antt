-- ===== src/Users/Tables.antt =====
-- users_service.py: the statements on sessions, supervisions and batches that ride in another
-- change's transaction. None commits.
use prompt_patrol.Common.{
  ℕ, ◌+◌, Bool, false, Option, none, some, List, [], ◌∷◌, ◌==◌, ltb, ◌&&◌, ◌||◌, not, map, any,
  select, length, update_where,
}
use prompt_patrol.Models.{Db, Uuid, Time, active, status_eq, Supervision, UserSession, is_none}
use prompt_patrol.World.{Exec, pure, modify, ◌>>=◌, ◌>>◌, Done, clock, do_flush}

-- A session that is not revoked.
abbrev pub is_live : UserSession → Bool
is_live s = is_none s.deleted_at

abbrev pub end_session : Time → UserSession → UserSession
end_session now s = record s { deleted_at = some now }

-- `_revoke_sessions`
unfoldable pub sessions_revoked : Time → Uuid → Db → Db
sessions_revoked now user_id db = record db {
  sessions = update_where (λ s. s.user_id == user_id && is_live s) (end_session now) db.sessions;
}

unfoldable pub revoke_sessions : Uuid → Exec Done
revoke_sessions user_id = do now ← clock; modify (sessions_revoked now user_id)

abbrev pub end_link : Time → Uuid → Supervision → Supervision
end_link now actor_id l = record l { ended_at = some now; ended_by = some actor_id }

-- `_end_links`
unfoldable pub links_ended : Time → Uuid → Uuid → Db → Db
links_ended now user_id actor_id db = record db {
  supervisions =
      update_where (λ l. (l.ta_id == user_id || l.instructor_id == user_id) && is_none l.ended_at)
        (end_link now actor_id) db.supervisions;
}

unfoldable pub end_links : Uuid → Uuid → Exec Done
end_links user_id actor_id = do now ← clock; modify (links_ended now user_id actor_id)

-- `_supervised_ta_ids`
unfoldable pub supervised_ta_ids : Db → Uuid → List Uuid
supervised_ta_ids db instructor_id =
    map (λ l. l.ta_id)
      (select (λ l. l.instructor_id == instructor_id && is_none l.ended_at) db.supervisions)

abbrev pub is_active_user : Db → Uuid → Bool
is_active_user db i = any (λ u. u.id == i && status_eq u.status active) db.users

-- The subquery of `_sign_out_unsupervised`: an active link to an active instructor.
unfoldable pub still_supervised : Db → Uuid → Bool
still_supervised db ta =
    any (λ l. l.ta_id == ta && is_none l.ended_at && is_active_user db l.instructor_id)
      db.supervisions

abbrev pub is_in : Uuid → List Uuid → Bool
is_in i = any (λ j. j == i)

unfoldable pub unsupervised_signed_out : Time → List Uuid → Db → Db
unfolding still_supervised
unsupervised_signed_out now ta_ids db = record db {
  sessions =
      update_where (λ s. is_in s.user_id ta_ids && not (still_supervised db s.user_id) && is_live s)
        (end_session now) db.sessions;
}

-- `_sign_out_unsupervised`
unfoldable pub sign_out_unsupervised : List Uuid → Exec Done
sign_out_unsupervised [] = pure tt
sign_out_unsupervised (ta ∷ tas) = do
  do_flush
  now ← clock
  modify (unsupervised_signed_out now (ta ∷ tas))

abbrev pub is_of_batch : Uuid → Option Uuid → Bool
is_of_batch b none = false
is_of_batch b (some c) = c == b

-- `SELECT COUNT(*) FROM checks WHERE batch_id = b`, and of the failures.
unfoldable pub completed_rows : Db → Uuid → ℕ
completed_rows db b = length (select (λ c. is_of_batch b c.batch_id) db.checks)

unfoldable pub failed_rows : Db → Uuid → ℕ
failed_rows db b = length (select (λ f. f.batch_id == b) db.row_failures)

unfoldable pub unfinished_cancelled : Time → Uuid → Db → Db
unfolding completed_rows failed_rows
unfinished_cancelled now user_id db = record db {
  batches =
      update_where
        (λ b.
          b.actor_id == user_id
          && is_none b.cancelled_at
          && ltb (completed_rows db b.id + failed_rows db b.id) b.row_total)
        (λ b. record b { cancelled_at = some now }) db.batches;
}

-- `_cancel_unfinished_batches`
unfoldable pub cancel_unfinished_batches : Uuid → Exec Done
cancel_unfinished_batches user_id = do now ← clock; modify (unfinished_cancelled now user_id)
