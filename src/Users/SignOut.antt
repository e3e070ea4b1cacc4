-- ===== src/Users/SignOut.antt =====
-- Ending a supervision signs out a TA who is left without one (services/users_service.py).
use prompt_patrol.Common.{
  suc, length, select, ◌≡◌, refl, ap, sym, ◌∙◌, Bool, true, false, none, some, List, [], ◌∷◌, arith,
  ◌⊎◌, inl, inr, ◌&&◌, not, All, find, any, update_where, Bool-cases, Option-cases, if◌then◌else◌,
  ◌==◌,
}
use prompt_patrol.Models.{Db, Uuid, Time, User, UserSession, root_admin, role_eq, Supervision}
use prompt_patrol.World.{
  World, Exec, gets, or_raise, clock, ◌>>◌, user_not_found, flush, Result, ok, err, feed, ◌>>=◌,
  do_commit, finish_commit, CommitReply, committed, integrity_violation, connection_lost,
  answer_lost, pure, commit, do_flush, finish_flush, modify,
}
use prompt_patrol.Users.Access.{has_id, load_manageable, is_link}
use prompt_patrol.Users.Tables.{
  still_supervised, unsupervised_signed_out, sign_out_unsupervised, is_live, end_session, is_in,
  end_link,
}
use prompt_patrol.Users.Teams.{first_link_ended, end_supervision}

-- No session of the user is live.
abbrev pub SignedOut : Uuid → Db → Type 0
SignedOut i db = All (λ s. s.user_id ≡ i → is_live s ≡ false) db.sessions

signed_out_update :
    (p q : Uuid → Bool) (ta : Uuid) (now : Time) (ss : List UserSession)
    → p ta ≡ true
    → q ta ≡ true
    → All
        (λ s. s.user_id ≡ ta → is_live s ≡ false)
        (update_where (λ s. p s.user_id && q s.user_id && is_live s) (end_session now) ss)
unfolding update_where
signed_out_update p q ta now [] h k = tt
signed_out_update p q ta now (s ∷ ss) h k = (ended, signed_out_update p q ta now ss h k)
  where
    same_user : (b : Bool) → (if b then end_session now s else s).user_id ≡ s.user_id
    same_user true = refl
    same_user false = refl

    ended :
        (if p s.user_id && q s.user_id && is_live s then end_session now s else s).user_id ≡ ta
        → is_live (if p s.user_id && q s.user_id && is_live s then end_session now s else s) ≡ false
    ended e =
        let u : s.user_id ≡ ta = sym (same_user (p s.user_id && q s.user_id && is_live s)) ∙ e in
        elim (Bool-cases (is_live s)) [
          | inl l ↦ rw (ap p u ∙ h, ap q u ∙ k, l) refl
          | inr d ↦ rw (ap p u ∙ h, ap q u ∙ k, d) d
        ]

-- A TA who is still supervised, or signed out.
abbrev pub Covered : Uuid → Db → Type 0
Covered ta db = (still_supervised db ta ≡ true) ⊎ SignedOut ta db

is_in_one : (ta : Uuid) → is_in ta (ta ∷ []) ≡ true
unfolding any
is_in_one ta = ground arith

signed_out-Covered :
    (ta : Uuid) (now : Time) (db : Db) → Covered ta (unsupervised_signed_out now (ta ∷ []) db)
unfolding unsupervised_signed_out still_supervised
signed_out-Covered ta now db = elim (Bool-cases (still_supervised db ta)) [
  | inl h ↦ inl h
  | inr h ↦ inr (
      signed_out_update (λ i. is_in i (ta ∷ [])) (λ i. not (still_supervised db i)) ta now
        db.sessions (is_in_one ta) (rw h refl))
]

-- What `end_supervision` leaves where it returns.
abbrev pub Leaves : Uuid → Result User × World → Type 0
Leaves ta (ok u, w') = Covered ta w'.db × (w'.saved ≡ w'.db)
Leaves ta (err e, w') = Unit

abbrev reloaded : Uuid → Exec User
reloaded ta = do target ← load_manageable ta; do_commit; pure target

reloaded-Leaves : (ta : Uuid) (w : World) → Covered ta w.db → Leaves ta (reloaded ta w)
unfolding load_manageable ◌>>=◌ do_commit pure
reloaded-Leaves ta w c = elim (Option-cases (find (has_id ta) w.db.users)) [
  | inl e ↦ rw e tt
  | inr (u, e) ↦ rw e (by_reply u (w.outside.commits w.calls))
]
  where
    by_reply :
        (u : User) (r : CommitReply)
        → Leaves ta (feed (λ _. pure u) (finish_commit r (record w { calls = commit ∷ w.calls })))
    by_reply u committed = (c, refl)
    by_reply u integrity_violation = tt
    by_reply u connection_lost = tt
    by_reply u answer_lost = tt

signed_out-Leaves :
    (ta : Uuid) (w : World) → Leaves ta ((sign_out_unsupervised (ta ∷ []) >> reloaded ta) w)
unfolding sign_out_unsupervised ◌>>=◌ do_flush
signed_out-Leaves ta w = by_reply (w.outside.commits w.calls)
  where
    by_reply :
        (r : CommitReply)
        → Leaves ta (
            feed
              (λ _. reloaded ta)
              (feed
                (λ _. clock >>= λ now. modify (unsupervised_signed_out now (ta ∷ [])))
                (finish_flush r (record w { calls = flush ∷ w.calls }))))
    by_reply committed = reloaded-Leaves ta _ (signed_out-Covered ta _ w.db)
    by_reply integrity_violation = tt
    by_reply connection_lost = tt
    by_reply answer_lost = tt

-- Where `end_supervision` returns, the TA still has an active link to an active instructor or has
-- no live session left, and that is committed.
pub end_supervision-Leaves :
    (actor : User) (ta i : Uuid) (w : World) → Leaves ta (end_supervision actor ta i w)
unfolding end_supervision ◌>>=◌
end_supervision-Leaves actor ta i w =
    elim (Bool-cases (not (role_eq actor.role root_admin) && not (actor.id == i))) [
      | inl e ↦ rw e tt
      | inr e ↦ rw e (by_link (Option-cases (find (is_link ta i) w.db.supervisions)))
    ]
  where
    by_link :
        (find (is_link ta i) w.db.supervisions ≡ none)
          ⊎ ((l : Supervision) × (find (is_link ta i) w.db.supervisions ≡ some l))
        → Leaves ta (
            (do
              link ← gets (λ w. find (is_link ta i) w.db.supervisions)
              or_raise link user_not_found
              now ← clock
              modify λ db. record db {
                supervisions = first_link_ended now actor.id ta i db.supervisions;
              }
              sign_out_unsupervised (ta ∷ [])
              reloaded ta)
              w)
    by_link (inl e) = rw e tt
    by_link (inr (l, e)) = rw e (signed_out-Leaves ta _)

ended-is_link :
    (now : Time) (actor_id ta i : Uuid) (l : Supervision)
    → is_link ta i (end_link now actor_id l) ≡ false
ended-is_link now actor_id ta i l = ground arith

-- The ending of a link leaves one active link fewer.
one_fewer :
    (now : Time) (actor_id ta i : Uuid) (ls : List Supervision) (l : Supervision)
    → find (is_link ta i) ls ≡ some l
    → suc (length (select (is_link ta i) (first_link_ended now actor_id ta i ls)))
      ≡ length (select (is_link ta i) ls)
unfolding find select
one_fewer now actor_id ta i [] l h = cc
one_fewer now actor_id ta i (k ∷ ks) l h = elim (Bool-cases (is_link ta i k)) [
  | inl t ↦ rw t (rw (ended-is_link now actor_id ta i k) refl)
  | inr f ↦ rw f (rw f (one_fewer now actor_id ta i ks l (rw f at h)))
]

may_end :
    (actor : User) (i : Uuid)
    → (actor.role ≡ root_admin) ⊎ (actor.id ≡ i)
    → (not (role_eq actor.role root_admin) && not (actor.id == i)) ≡ false
may_end actor i h = ground (arith, h)

-- Where a root admin or the instructor of an active link ends it, the TA's account is there and the
-- database does what it is asked, `end_supervision` returns the account, and what it has committed
-- has one active link fewer between the two, and the TA still supervised or without a live session.
pub end_supervision-returns :
    (actor : User) (ta i : Uuid) (w : World) (l : Supervision) (u : User)
    → (actor.role ≡ root_admin) ⊎ (actor.id ≡ i)
    → find (is_link ta i) w.db.supervisions ≡ some l
    → find (has_id ta) w.db.users ≡ some u
    → w.outside.commits ≡ (λ calls. committed)
    → ((end_supervision actor ta i w).0 ≡ ok u)
      × (suc (length (select (is_link ta i) (end_supervision actor ta i w).1.saved.supervisions))
          ≡ length (select (is_link ta i) w.db.supervisions))
      × Covered ta (end_supervision actor ta i w).1.saved
unfolding end_supervision sign_out_unsupervised load_manageable do_flush do_commit ◌>>=◌
    unsupervised_signed_out
end_supervision-returns actor ta i w l u g e f c =
    let t : Time = w.outside.time w.calls in
    let ended : Db = record w.db {
      supervisions = first_link_ended t actor.id ta i w.db.supervisions;
    } in
    rw (may_end actor i g, e, c, f)
      (refl, one_fewer t actor.id ta i w.db.supervisions l e, signed_out-Covered ta _ ended)
