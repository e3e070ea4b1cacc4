-- ===== src/Routes/App/Forged.antt =====
-- What a request that does not come from the front end may change (middleware.py).
use prompt_patrol.Common.{
  Bool, true, false, Option, none, some, ◌⊎◌, ap, Text, text, text_eq, text_eq_iff, ◌≡◌, ◌≢◌, refl,
  arith, Bool-cases, inl, inr,
}
use prompt_patrol.Models.{Db}
use prompt_patrol.World.{World}
use prompt_patrol.Routes.App.{
  Route, account, post_check, post_upload_url, post_batch, post_cancel, post_logout, get_callback,
  get_checks, get_check, get_batch, get_user, get_profile, get_users, get_me, is_safe, HttpRequest,
  allowed, handle, serve,
}
use prompt_patrol.Routes.Reading.Gates.{SameTables}
use prompt_patrol.Routes.Reading.Untouched.{
  list_checks_route-Same, get_check_route-Same, get_batch_progress_route-Same, get_user_route-Same,
  get_current_user_profile-Same, list_all_users-Same, me-Same,
}

abbrev pub is_callback : Route → Bool
is_callback (get_callback x) = true
is_callback _ = false

-- What tells the guard that a request does not come from the front end: its mark is of another site
-- or a sibling host, or, of a browser that sends no mark, its origin is not the front end's.
abbrev pub IsForged : Text → HttpRequest → Type 0
IsForged own r =
    ((site : Text) × ((r.fetch_site ≡ some site)
        × (site ≢ text "same-origin")
        × (site ≢ text "none")))
    ⊎ ((r.fetch_site ≡ none) × (r.origin ≢ some own))

allowed-marked :
    (own site : Text) (origin : Option Text)
    → site ≢ text "same-origin"
    → site ≢ text "none"
    → allowed own (some site) origin ≡ false
unfolding allowed
allowed-marked own site origin h k =
    ground (arith, text_eq_iff site (text "same-origin"), text_eq_iff site (text "none"), h, k)

allowed-unmarked :
    (own : Text) (origin : Option Text) → origin ≢ some own → allowed own none origin ≡ false
unfolding allowed
allowed-unmarked own none h = refl
allowed-unmarked own (some o) h = elim (Bool-cases (text_eq o own)) [
  | inl e ↦ absurd (h (ap some ((text_eq_iff o own).0 e)))
  | inr e ↦ e
]

allowed-forged :
    (own : Text) (r : HttpRequest) → IsForged own r → allowed own r.fetch_site r.origin ≡ false
allowed-forged own r (inl (site, (e, h, k))) = rw e (allowed-marked own site r.origin h k)
allowed-forged own r (inr (e, h)) = rw e (allowed-unmarked own r.origin h)

pub same : (db : Db) → SameTables db db
same db = record {
  users = refl;
  sessions = refl;
  status_events = refl;
  role_events = refl;
  supervisions = refl;
  checks = refl;
  batches = refl;
  row_failures = refl;
}

serve-SameTables :
    (r : Route) (cookie : Option Text) (w : World)
    → SameTables w.saved w.db
    → is_safe r ≡ true
    → is_callback r ≡ false
    → SameTables w.saved (serve r cookie w).1.saved
unfolding serve
serve-SameTables (get_checks limit cursor f) cookie w p h k =
    list_checks_route-Same w.saved w p (same w.saved) cookie limit cursor f
serve-SameTables (get_check c) cookie w p h k =
    get_check_route-Same w.saved w p (same w.saved) cookie c
serve-SameTables (get_batch b) cookie w p h k =
    get_batch_progress_route-Same w.saved w p (same w.saved) cookie b
serve-SameTables (get_user a) cookie w p h k =
    get_user_route-Same w.saved w p (same w.saved) cookie a
serve-SameTables get_profile cookie w p h k =
    get_current_user_profile-Same w.saved w p (same w.saved) cookie
serve-SameTables (get_users role statuses limit cursor) cookie w p h k =
    list_all_users-Same w.saved w p (same w.saved) cookie role statuses limit cursor
serve-SameTables (get_me probe) cookie w p h k = me-Same w.saved w p (same w.saved) cookie probe
serve-SameTables (get_callback x) cookie w p h k = cc
serve-SameTables (account e) cookie w p h k = cc
serve-SameTables (post_check body) cookie w p h k = cc
serve-SameTables (post_upload_url name) cookie w p h k = cc
serve-SameTables (post_batch body) cookie w p h k = cc
serve-SameTables (post_cancel i) cookie w p h k = cc
serve-SameTables post_logout cookie w p h k = cc

-- A request that is marked as coming from another site or a sibling host, or that has no such mark and
-- not the front end's origin, is refused with a 403 before anything of it runs, unless its method is
-- safe; and then too, unless it is the sign-in callback and whatever its cookie, it changes no
-- committed table, and of a session at most the time of its last activity, if the session's view
-- starts from what is committed.
pub handle-SameTables :
    (own : Text) (r : HttpRequest) (w : World)
    → SameTables w.saved w.db
    → IsForged own r
    → is_callback r.route ≡ false
    → ((is_safe r.route ≡ true) ⊎ (handle own r w ≡ (403, w)))
      × SameTables w.saved (handle own r w).1.saved
unfolding handle
handle-SameTables own r w p h c = elim (Bool-cases (is_safe r.route)) [
  | inl safe ↦ rw safe (inl refl, serve-SameTables r.route r.cookie w p safe c)
  | inr unsafe ↦ rw (unsafe, allowed-forged own r h) (inr refl, same w.saved)
]
