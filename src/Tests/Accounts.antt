-- ===== src/Tests/Accounts.antt =====
-- Accounts, sessions and rosters (apps/api/app/services, users_service.py and sessions.py).
use prompt_patrol.Common.{
  suc, inl, ◌↔◌, ◌≡◌, refl, true, false, none, some, List, any, select, find, text_eq, ◌-◌, [], ◌∷◌,
  text, arith, length,
}
use prompt_patrol.Models.{UserSession}
use prompt_patrol.World.{ok, ◌>>=◌}
use prompt_patrol.Sessions.{
  authenticate_session, purge_expired_sessions, session_retention, activity,
}
use prompt_patrol.Sessions.Laws.{Admits, stored, authenticate-Admits, probe_writes_nothing}
use prompt_patrol.Sessions.Purge.{Purges, purge_expired_sessions-Purges}
use prompt_patrol.Users.Access.{has_id, is_link, may_manage, can_view_user, get_user_by_id}
use prompt_patrol.Users.Visibility.{MaySee, may_manage-can_view_user, get_user_by_id-MaySee}
use prompt_patrol.Users.Teams.{end_supervision}
use prompt_patrol.Users.SignOut.{Covered, Leaves, end_supervision-Leaves, end_supervision-returns}
use prompt_patrol.Users.Roster.{may_not_list}
use prompt_patrol.Users.Pages.{ordered_roster, fetch_users, follow-list_users}
use prompt_patrol.Paging.Follow.{follow}
use prompt_patrol.Invariants.LiveSessions.{LiveSessionsActive}
use prompt_patrol.Invariants.LiveSessions.Requests.{
  Request, serve, serve-LiveSessionsActive, remove_from_team, deactivate, open_page,
}
use prompt_patrol.Routes.Accounts.{respond, remove_supervisor}
use prompt_patrol.Routes.Accounts.Statuses.{IsMapped, respond-IsMapped}
use prompt_patrol.Tests.Office.{assistant_link, admin, teacher, assistant, day, office}

abbrev requests : List Request
requests =
    open_page false (some (text "t")) ∷ remove_from_team admin 3 2 ∷ deactivate admin 2 none ∷ []

serve-LiveSessionsActive_example : LiveSessionsActive (serve requests day).saved
unfolding any
serve-LiveSessionsActive_example =
    serve-LiveSessionsActive requests day ((λ h. refl), tt) ((λ h. refl), tt)

authenticate-Admits_example :
    (s : UserSession) × (stored (text "t") day ≡ some s)
    × Admits day s (activity assistant 14400000500 1800000500)
unfolding authenticate_session ◌>>=◌ find text_eq
authenticate-Admits_example = authenticate-Admits (text "t") true day refl

probe_writes_nothing_example :
    let w' = (authenticate_session (text "t") false day).1 in
    (w'.db ≡ day.db) × (w'.saved ≡ day.saved)
probe_writes_nothing_example = probe_writes_nothing (text "t") day

purge_expired_sessions-Purges_example :
    Purges (1000 - session_retention) 0 day.db.sessions (purge_expired_sessions 5 day)
purge_expired_sessions-Purges_example = purge_expired_sessions-Purges 5 day (omega arith)

may_manage-can_view_user_example : can_view_user (office none) teacher assistant ≡ true
unfolding may_manage select any
may_manage-can_view_user_example = may_manage-can_view_user (office none) teacher assistant refl

get_user_by_id-MaySee_example :
    ((get_user_by_id teacher 3 day).0 ≡ ok (some assistant))
    ↔ ((find (has_id 3) day.db.users ≡ some assistant) × MaySee day.db teacher assistant)
get_user_by_id-MaySee_example = get_user_by_id-MaySee teacher 3 day assistant

end_supervision-Leaves_example : Leaves 3 (end_supervision admin 3 2 day)
end_supervision-Leaves_example = end_supervision-Leaves admin 3 2 day

follow-list_users_example :
    follow
      (suc (length (ordered_roster admin none none day.db)))
      (fetch_users admin none none 1 day)
      none
    ≡ ordered_roster admin none none day.db
unfolding may_not_list
follow-list_users_example =
    follow-list_users admin none none 1 day ((refl, (refl, tt)), ((refl, tt), (tt, tt))) refl
      (omega arith)

respond-IsMapped_example : IsMapped (respond (remove_supervisor 3 2) (some (text "t")) day).0
respond-IsMapped_example = respond-IsMapped (remove_supervisor 3 2) (some (text "t")) day

end_supervision-returns_example :
    ((end_supervision admin 3 2 day).0 ≡ ok assistant)
    × (suc (length (select (is_link 3 2) (end_supervision admin 3 2 day).1.saved.supervisions))
        ≡ length (select (is_link 3 2) day.db.supervisions))
    × Covered 3 (end_supervision admin 3 2 day).1.saved
unfolding find
end_supervision-returns_example =
    end_supervision-returns admin 3 2 day assistant_link assistant (inl refl) refl refl refl
