-- ===== src/Security/Session/Identity.antt =====
-- Whose rights an identification gives, and what becomes of a session that was marked.
use swirl_evo.Common.{
  Option-cases, codes, ℕ, ◌≤◌, ◌≡◌, ◌≢◌, refl, ap, ◌∙◌, length, Bool, true, false, if◌then◌else◌,
  List, [], ◌∷◌, any, none, some, Text, arith, text_eq, ==_self, ==_ne, Bool-cases, inl, inr,
}
use swirl_evo.Common.Dict.{Dict, lookup, lookup-replace_ne}
use swirl_evo.Security.Perm.{User, check, new_perm_map}
use swirl_evo.Security.Perm.Grants.{grants, contains-new_perm_map}
use swirl_evo.Security.Session.Expiry.{fill_session-life, update_session-eq_ok}
use swirl_evo.Security.Session.{
  Session, Account, Db, Works, Result, ok, failed, panics, add_perms, get_perms, get_perms_from,
  fill_session, fill_from, session_update, update_session, identify, identify_by_session,
  identify_by_token, user_get_by_token, identify_found, identified_dirty, create_user,
  create_session, session_update_dirty, mark_dirty,
}

abbrev pub all_work : Works
all_work = record {
  session_get = true;
  session_put = true;
  user_get = true;
  user_find = true;
  role_get = true;
}

-- The session under a token, after the mark of its user.
lookup-mark_dirty :
    (now : ℕ) (role_id token : Text) (s : Session) (sessions : Dict Text Session)
    → s.user_id ≢ []
    → lookup token sessions ≡ some s
    → lookup token (mark_dirty now s.user_id role_id sessions)
      ≡ some (record s { dirty = true; updated_at = now })
unfolding lookup mark_dirty
lookup-mark_dirty now role_id token s [] n e = cc
lookup-mark_dirty now role_id token s ((k, t) ∷ sessions) n e = ground (
  arith,
  lookup-mark_dirty now role_id token s sessions n,
  ==_ne s.user_id [] n,
  ==_self s.user_id,
)

fill_session-current :
    (db : Db) (s : Session) (u : Account) (perms : List Text)
    → lookup s.user_id db.users ≡ some u
    → (u.admin ≡ false → get_perms all_work db.roles u.roles ≡ ok perms)
    → (t : Session) × (fill_session all_work db s ≡ ok t)
      × (t.id ≡ s.id)
      × (t.user_id ≡ s.user_id)
      × (t.admin ≡ u.admin)
      × (u.admin ≡ false → t.perm ≡ new_perm_map perms)
fill_session-current db s u perms e g = elim (Bool-cases u.admin) [
  | inl y ↦ (
    record s { perms = codes "*" ∷ []; username = u.name; admin = u.admin; roles = u.roles },
    unfold fill_session fill_from in ground (arith, e, y),
    refl,
    refl,
    refl,
    λ n. absurd (ground (arith, y, n)),
  )
  | inr n ↦ (
    record s {
      perms = perms;
      perm = new_perm_map perms;
      username = u.name;
      admin = u.admin;
      roles = u.roles;
    },
    unfold fill_session fill_from in ground (arith, e, n, g n),
    refl,
    refl,
    refl,
    λ _. refl,
  )
]

-- A token of 24 bytes is looked up among the sessions.
identify_session :
    (works : Works) (token_expiry now : ℕ) (token : Text) (db : Db)
    → length token ≡ 24
    → identify works token_expiry now token db ≡ identify_by_session works token_expiry now token db
unfolding identify
identify_session works token_expiry now [] db l = absurd (ground arith)
identify_session works token_expiry now (c ∷ token) db l = rw l refl

identify_hit :
    (works : Works) (token_expiry now : ℕ) (token : Text) (db : Db) (s : Session)
    → length token ≡ 24
    → lookup token db.sessions ≡ some s
    → works.session_get ≡ true
    → identify works token_expiry now token db ≡ identify_found works token_expiry now s db
unfolding identify_by_session fill_session
identify_hit works token_expiry now token db s l e w =
    identify_session works token_expiry now token db l ∙ rw (identify_by_session, w, e) refl

-- After the mark that follows a change of a user, the next request with a session of that user,
-- before its expiry, with a token of 24 bytes and a working store, is identified as that user, and may
-- do exactly what the account is allowed now: everything for an administrator, and otherwise what the
-- permissions of the account's current roles grant, whatever the session held before. The account is
-- still there, and where it is no administrator's so is each of its roles.
pub identify-session_update_dirty :
    (token_expiry marked now : ℕ) (role_id token : Text) (db : Db) (s : Session) (u : Account)
    (perms : List Text)
    → length token ≡ 24
    → lookup token db.sessions ≡ some s
    → s.user_id ≢ []
    → now ≤ s.expiry
    → lookup s.user_id db.users ≡ some u
    → (u.admin ≡ false → get_perms all_work db.roles u.roles ≡ ok perms)
    → (v : User) × ((identify all_work token_expiry now token
          (session_update_dirty marked s.user_id role_id db)).0
        ≡ ok (some v))
      × (v.id ≡ s.user_id)
      × ((auth : Text) → check v auth ≡ (if u.admin then true else grants perms auth))
identify-session_update_dirty token_expiry marked now role_id token db s u perms l e n live eu g =
    let marked_db = session_update_dirty marked s.user_id role_id db in
    let dirty : Session = record s { dirty = true; updated_at = marked } in
    let hit : lookup token marked_db.sessions ≡ some dirty =
      unfold session_update_dirty in lookup-mark_dirty marked role_id token s db.sessions n e in
    let (t, f, ti, tu, ta, tp) =
      fill_session-current marked_db dirty u perms (unfold session_update_dirty in eu)
        (unfold session_update_dirty in g) in
    (
      create_user (record t { dirty = false; updated_at = now }),
      (rw (identify_hit all_work token_expiry now token marked_db dirty l hit refl)
          (unfold identify_found identified_dirty update_session in ground (arith, f, live))),
      (unfold create_user in tu),
      λ auth. unfold check create_user in ground (arith, ta, tp, contains-new_perm_map perms auth),
    )

-- One request after another with the same token.
pub visits : Text → List (Works × ℕ × ℕ) → Db → Db
visits token [] db = db
visits token ((works, expiry, now) ∷ rest) db =
    visits token rest (identify works expiry now token db).1

-- What a request with the token of a dirty session leaves under that token.
found-dirty :
    (works : Works) (token_expiry now : ℕ) (token : Text) (db : Db) (s : Session)
    → lookup token db.sessions ≡ some s
    → s.dirty ≡ true
    → s.user_id ≢ token
    → lookup token (identify_found works token_expiry now s db).1.sessions ≡ some s
found-dirty works token_expiry now token db s e d n = go (update_session works now db s) refl
  where
    go :
        (r : Result (Session × Db))
        → update_session works now db s ≡ r
        → lookup token (identify_found works token_expiry now s db).1.sessions ≡ some s
    go (ok (t, db')) q =
        let (filled, f, te, de) = update_session-eq_ok works now db db' s t q in
        let key : t.user_id ≡ s.user_id =
          ap (λ (x : Session). x.user_id) te ∙ (fill_session-life works db s filled f).3 in
        let kept : lookup token db'.sessions ≡ some s = rw de (
          unfold session_update in
          lookup-replace_ne t.user_id token t db.sessions (rw key n) ∙ e) in
        unfold identify_found identified_dirty in ground (arith, e, d, q, kept)
    go failed q = unfold identify_found identified_dirty in ground (arith, e, d, q)
    go panics q = unfold identify_found identified_dirty in ground (arith, e, d, q)

visit-dirty :
    (works : Works) (token_expiry now : ℕ) (token : Text) (db : Db) (s : Session)
    → length token ≡ 24
    → lookup token db.sessions ≡ some s
    → s.dirty ≡ true
    → s.user_id ≢ token
    → lookup token (identify works token_expiry now token db).1.sessions ≡ some s
visit-dirty works token_expiry now token db s l e d n = elim (Bool-cases works.session_get) [
  | inl w ↦
      rw (identify_hit works token_expiry now token db s l e w)
        (found-dirty works token_expiry now token db s e d n)
  | inr w ↦
      rw (identify_session works token_expiry now token db l)
        (unfold identify_by_session in ground (arith, w, e))
]

-- A dirty session whose user's id is not its token stays in the store as it is, dirty and with its
-- old expiry, whatever number of requests it makes, at whatever times and whether or not the store
-- works: the refreshed copy is written under the user's id and the expiry is never renewed.
pub visits-dirty :
    (token : Text) (script : List (Works × ℕ × ℕ)) (db : Db) (s : Session)
    → length token ≡ 24
    → lookup token db.sessions ≡ some s
    → s.dirty ≡ true
    → s.user_id ≢ token
    → lookup token (visits token script db).sessions ≡ some s
unfolding visits
visits-dirty token [] db s l e d n = e
visits-dirty token ((works, token_expiry, now) ∷ rest) db s l e d n =
    visits-dirty token rest (identify works token_expiry now token db).1 s l
      (visit-dirty works token_expiry now token db s l e d n) d n

-- Whether a role id is unknown.
unfoldable pub is_missing : Dict Text (List Text) → Text → Bool
is_missing roles id = elim (lookup id roles) [ none ↦ true | some _ ↦ false ]

get_perms_from-panics :
    (roles : Dict Text (List Text)) (m : List Text) (ids : List Text)
    → any (is_missing roles) ids ≡ true
    → get_perms_from all_work roles m ids ≡ panics
unfolding get_perms_from is_missing
get_perms_from-panics roles m [] h = cc
get_perms_from-panics roles m (id ∷ ids) h = elim (Option-cases (lookup id roles)) [
  | inl e ↦ rw e refl
  | inr (perms, e) ↦
      rw e (get_perms_from-panics roles (add_perms m perms) ids (ground (arith, e, h)))
]

-- For an account that is not an administrator and has a role that is no longer in the store, a
-- login and a request with a token that the store finds this account by (not of 24 bytes) both end in
-- a panic, when every read of the store works.
pub deleted_role-panics :
    (token_expiry now : ℕ) (id name token : Text) (db : Db) (u : Account) (user_id : Text)
    → lookup user_id db.users ≡ some u
    → u.admin ≡ false
    → any (is_missing db.roles) u.roles ≡ true
    → user_get_by_token token db.users ≡ some u
    → token ≢ []
    → length token ≢ 24
    → (create_session all_work token_expiry now id user_id name db ≡ panics)
      × (identify all_work token_expiry now token db ≡ (panics, db))
deleted_role-panics token_expiry now id name token db u user_id e a h t n l =
    let p : get_perms all_work db.roles u.roles ≡ panics =
      unfold get_perms in get_perms_from-panics db.roles [] u.roles h in
    (
      (unfold create_session fill_session fill_from in ground (arith, e, a, p)),
      (unfold identify identify_by_token in ground (arith, t, p, l, ==_ne token [] n)),
    )
