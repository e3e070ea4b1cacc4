-- ===== src/Users/Visibility.antt =====
-- Who may see and who may manage an account (services/users_service.py).
use prompt_patrol.Common.{◌≡◌, ◌≢◌, ◌↔◌, true, Option, none, some, arith, ◌⊎◌, ◌==◌, find, any}
use prompt_patrol.Models.{Db, Uuid, User, root_admin, instructor, teaching_assistant, active}
use prompt_patrol.World.{World, ok, ◌>>=◌}
use prompt_patrol.Users.Access.{
  supervisor_ids, may_manage, can_view_user, supervises, get_user_by_id, has_id, visible,
}

-- Whoever may manage an account may see it.
pub may_manage-can_view_user :
    (db : Db) (actor target : User)
    → may_manage db actor target ≡ true
    → can_view_user db actor target ≡ true
unfolding may_manage can_view_user supervises
may_manage-can_view_user db actor target h = ground arith

-- What a caller may be given of an account. It is active, or the caller is a root admin or an
-- instructor who supervises its holder; and the caller is a root admin, its holder, such an
-- instructor, or a TA whom its holder, who is no root admin, supervises.
abbrev pub MaySee : Db → User → User → Type 0
MaySee db actor u =
    ((u.status ≡ active)
      ⊎ ((actor.role ≡ root_admin) ⊎ ((actor.role ≡ instructor) × (supervises db actor u ≡ true))))
    × ((actor.role ≡ root_admin)
        ⊎ ((actor.id ≡ u.id)
            ⊎ (((actor.role ≡ instructor) × (supervises db actor u ≡ true))
                ⊎ ((actor.role ≡ teaching_assistant)
                    × (u.role ≢ root_admin)
                    × (any (λ i. u.id == i) (supervisor_ids db actor.id) ≡ true)))))

supervises-teaching_assistant :
    (db : Db) (actor u : User) → supervises db actor u ≡ true → u.role ≡ teaching_assistant
unfolding supervises
supervises-teaching_assistant db actor u h = ground arith

-- What the two guards come to, for a found account.
shown_exactly :
    (db : Db) (actor v u : User)
    → (ok (visible db actor (some v)) ≡ ok (some u)) ↔ ((v ≡ u) × MaySee db actor v)
unfolding can_view_user may_manage
shown_exactly db actor v u = ground (arith, supervises-teaching_assistant db actor v)

visible_exactly :
    (db : Db) (actor u : User) (o : Option User)
    → (ok (visible db actor o) ≡ ok (some u)) ↔ ((o ≡ some u) × MaySee db actor u)
visible_exactly db actor u none = ground arith
visible_exactly db actor u (some v) = ground (arith, shown_exactly db actor v u)

-- An account is given by its identifier exactly if it is there and the caller may see it: it is
-- active, or the caller may manage it as a root admin or as an instructor who supervises its holder;
-- and the caller is a root admin, its holder, an instructor who supervises its holder, or a TA whom
-- its holder, who is no root admin, supervises.
pub get_user_by_id-MaySee :
    (actor : User) (i : Uuid) (w : World) (u : User)
    → ((get_user_by_id actor i w).0 ≡ ok (some u))
      ↔ ((find (has_id i) w.db.users ≡ some u) × MaySee w.db actor u)
unfolding get_user_by_id ◌>>=◌
get_user_by_id-MaySee actor i w u = visible_exactly w.db actor u (find (has_id i) w.db.users)
