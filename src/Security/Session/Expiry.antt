-- ===== src/Security/Session/Expiry.antt =====
-- How long a session can live.
use mathlib.Core.Path.{subst}
use swirl_evo.Common.{
  ℕ, ◌+◌, ◌≤◌, ◌<◌, ◌≡◌, ◌≢◌, refl, sym, ap, ◌∙◌, length, Bool, true, false, List, [], ◌∷◌, Option,
  none, some, Text, arith, All, text_eq, not, if◌then◌else◌,
}
use swirl_evo.Common.Dict.{Dict, lookup, replace, replace-All, lookup-All}
use swirl_evo.Security.Session.{
  Session, Account, Db, Works, Result, ok, failed, panics, fill_session, fill_from, session_update,
  update_session, session_update_expiry, renew_session, identify, identify_by_session,
  identify_found, identified_dirty, Identified, create_session, session_update_dirty, mark_dirty,
  min_time, new_session,
}

-- An entry of the bucket: its session ends within its last possible expiry, and where the key can be
-- a session token it is the session's own. (`createId` makes account ids of 8 characters.)
abbrev pub IsSound : Text → Session → Type 0
IsSound key s = (s.expiry ≤ s.max_expiry) × (length s.user_id ≢ 24) × (length key ≡ 24 → key ≡ s.id)

abbrev pub AllSound : Db → Type 0
AllSound db = All (λ (e : Text × Session). IsSound e.0 e.1) db.sessions

-- What the fill leaves of a session.
abbrev pub SameLife : Session → Session → Type 0
SameLife s t =
    (t.expiry ≡ s.expiry) × (t.max_expiry ≡ s.max_expiry) × (t.id ≡ s.id) × (t.user_id ≡ s.user_id)

pub fill_session-life :
    (works : Works) (db : Db) (s t : Session) → fill_session works db s ≡ ok t → SameLife s t
unfolding fill_session fill_from
fill_session-life works db s t h = (ground arith, ground arith, ground arith, ground arith)

-- A session that was refreshed without an error, and the store with it.
pub update_session-eq_ok :
    (works : Works) (now : ℕ) (db db' : Db) (s t : Session)
    → update_session works now db s ≡ ok (t, db')
    → (filled : Session) × (fill_session works db s ≡ ok filled)
      × (t ≡ record filled { dirty = false; updated_at = now })
      × (db' ≡ session_update t db)
unfolding update_session
update_session-eq_ok works now db db' s t h = go (fill_session works db s) refl
  where
    go :
        (r : Result Session)
        → fill_session works db s ≡ r
        → (filled : Session) × (fill_session works db s ≡ ok filled)
          × (t ≡ record filled { dirty = false; updated_at = now })
          × (db' ≡ session_update t db)
    go (ok filled) e = (filled, e, ground (arith, e), ground (arith, e))
    go failed e = absurd (ground (arith, e))
    go panics e = absurd (ground (arith, e))

update_session-AllSound :
    (works : Works) (now : ℕ) (db db' : Db) (s t : Session)
    → AllSound db
    → s.expiry ≤ s.max_expiry
    → length s.user_id ≢ 24
    → update_session works now db s ≡ ok (t, db')
    → AllSound db'
unfolding session_update
update_session-AllSound works now db db' s t h c n e =
    let (filled, f, te, de) = update_session-eq_ok works now db db' s t e in
    let (le, lm, li, lu) = fill_session-life works db s filled f in
    let key : t.user_id ≡ s.user_id = ap (λ (x : Session). x.user_id) te ∙ lu in
    let short : length t.user_id ≢ 24 = rw key n in
    let capped : t.expiry ≤ t.max_expiry = rw te (omega (arith, c, le, lm)) in
    subst AllSound (sym de)
      (replace-All IsSound t.user_id t db.sessions (capped, short, λ l. absurd (short l)) h)

session_update_expiry-AllSound :
    (now expiry : ℕ) (s : Session) (db : Db)
    → AllSound db
    → lookup s.id db.sessions ≡ some s
    → expiry ≤ s.max_expiry
    → AllSound (session_update_expiry now s.id expiry db)
unfolding session_update_expiry
session_update_expiry-AllSound now expiry s db h e c =
    rw (e, session_update_expiry)
      (replace-All IsSound s.id (record s { expiry = expiry; updated_at = now }) db.sessions
        (c, (lookup-All IsSound s.id db.sessions h e).1, λ l. refl) h)

renew_session-AllSound :
    (works : Works) (token_expiry now : ℕ) (s : Session) (db : Db)
    → AllSound db
    → lookup s.id db.sessions ≡ some s
    → AllSound (renew_session works token_expiry now s db)
unfolding renew_session
renew_session-AllSound works token_expiry now s db h e =
    let done =
      session_update_expiry-AllSound now (min_time (now + token_expiry) s.max_expiry) s db h e
        (ground arith) in
    ground (arith, h, done)

identified_dirty-AllSound :
    (works : Works) (now : ℕ) (s : Session) (db : Db)
    → AllSound db
    → s.expiry ≤ s.max_expiry
    → length s.user_id ≢ 24
    → AllSound (identified_dirty db (update_session works now db s)).1
identified_dirty-AllSound works now s db h c n = go (update_session works now db s) refl
  where
    go :
        (r : Result (Session × Db))
        → update_session works now db s ≡ r
        → AllSound (identified_dirty db (update_session works now db s)).1
    go (ok (t, db')) e =
        unfold identified_dirty in rw e (update_session-AllSound works now db db' s t h c n e)
    go failed e = unfold identified_dirty in rw e h
    go panics e = unfold identified_dirty in rw e h

identify_found-AllSound :
    (works : Works) (token_expiry now : ℕ) (s : Session) (db : Db)
    → AllSound db
    → lookup s.id db.sessions ≡ some s
    → AllSound (identify_found works token_expiry now s db).1
unfolding identify_found
identify_found-AllSound works token_expiry now s db h e =
    let (c, n, k) = lookup-All IsSound s.id db.sessions h e in
    ground (
      arith,
      h,
      renew_session-AllSound works token_expiry now s db h e,
      identified_dirty-AllSound works now s db h c n,
    )

AllSound-if :
    (b : Bool) (x y : Identified) → AllSound x.1 → AllSound y.1 → AllSound (if b then x else y).1
AllSound-if true x y h g = h
AllSound-if false x y h g = g

identify_by_session-AllSound :
    (works : Works) (token_expiry now : ℕ) (token : Text) (db : Db)
    → AllSound db
    → length token ≡ 24
    → AllSound (identify_by_session works token_expiry now token db).1
identify_by_session-AllSound works token_expiry now token db h l =
    go (lookup token db.sessions) refl
  where
    go :
        (o : Option Session)
        → lookup token db.sessions ≡ o
        → AllSound (identify_by_session works token_expiry now token db).1
    go none e =
        unfold identify_by_session in
        rw (e, identify_by_session)
          (AllSound-if (not works.session_get) (ok none, db) (ok none, db) h h)
    go (some s) e =
        let own : token ≡ s.id = (lookup-All IsSound token db.sessions h e).2 l in
        unfold identify_by_session in
        rw (e, identify_by_session)
          (AllSound-if (not works.session_get) (ok none, db)
            (identify_found works token_expiry now s db) h
            (identify_found-AllSound works token_expiry now s db h
              (subst (λ k. lookup k db.sessions ≡ some s) own e)))

mark_dirty-AllSound :
    (now : ℕ) (user_id role_id : Text) (sessions : Dict Text Session)
    → All (λ (e : Text × Session). IsSound e.0 e.1) sessions
    → All (λ (e : Text × Session). IsSound e.0 e.1) (mark_dirty now user_id role_id sessions)
unfolding mark_dirty
mark_dirty-AllSound now user_id role_id [] h = tt
mark_dirty-AllSound now user_id role_id ((k, s) ∷ sessions) h =
    ground (arith, h, mark_dirty-AllSound now user_id role_id sessions h.1)

create_session-AllSound :
    (works : Works) (token_expiry now : ℕ) (id user_id name : Text) (db db' : Db) (s : Session)
    → AllSound db
    → length user_id ≢ 24
    → create_session works token_expiry now id user_id name db ≡ ok (s, db')
    → AllSound db'
unfolding create_session
create_session-AllSound works token_expiry now id user_id name db db' s h n e =
    go (fill_session works db blank) refl
  where
    blank : Session
    blank = new_session token_expiry now id user_id name

    go : (r : Result Session) → fill_session works db blank ≡ r → AllSound db'
    go (ok t) q =
        let (le, lm, li, lu) = fill_session-life works db blank t q in
        let made : Session = record t { created_at = now; updated_at = now } in
        let stored : db' ≡ record db { sessions = replace id made db.sessions } =
          ground (arith, q) in
        subst AllSound (sym stored)
          (replace-All IsSound id made db.sessions (omega (arith, le, lm), rw lu n, λ l. sym li) h)
    go failed q = absurd (ground (arith, q))
    go panics q = absurd (ground (arith, q))

-- What the server does to the store of sessions: logins, requests with a token, and marks after a
-- change of a user or a role, each at its time and with the store working or not.
pub data Act : Type 0 where
  logs_in : Works → ℕ → ℕ → Text → Text → Text → Act
  requests : Works → ℕ → ℕ → Text → Act
  marks : ℕ → Text → Text → Act

-- Accounts have ids of another length than tokens.
abbrev pub IsLegal : Act → Type 0
IsLegal (logs_in works expiry now id user_id name) = length user_id ≢ 24
IsLegal _ = Unit

after_login : Db → Result (Session × Db) → Db
after_login db (ok (s, db')) = db'
after_login db _ = db

unfoldable pub act : Db → Act → Db
unfolding after_login
act db (logs_in works expiry now id user_id name) =
    after_login db (create_session works expiry now id user_id name db)
act db (requests works expiry now token) = (identify works expiry now token db).1
act db (marks now user_id role_id) = session_update_dirty now user_id role_id db

unfoldable pub acts : Db → List Act → Db
acts db [] = db
acts db (a ∷ rest) = acts (act db a) rest

act-AllSound : (db : Db) (a : Act) → AllSound db → IsLegal a → AllSound (act db a)
unfolding act identify session_update_dirty after_login
act-AllSound db (logs_in works expiry now id user_id name) h l =
    go (create_session works expiry now id user_id name db) refl
  where
    go :
        (r : Result (Session × Db))
        → create_session works expiry now id user_id name db ≡ r
        → AllSound (after_login db (create_session works expiry now id user_id name db))
    go (ok (s, db')) e =
        rw e (create_session-AllSound works expiry now id user_id name db db' s h l e)
    go failed e = rw e h
    go panics e = rw e h
act-AllSound db (requests works expiry now token) h l =
    ground (arith, h, identify_by_session-AllSound works expiry now token db h)
act-AllSound db (marks now user_id role_id) h l =
    mark_dirty-AllSound now user_id role_id db.sessions h

acts-AllSound :
    (db : Db) (script : List Act) → AllSound db → All IsLegal script → AllSound (acts db script)
unfolding acts
acts-AllSound db [] h l = h
acts-AllSound db (a ∷ rest) h l = acts-AllSound (act db a) rest (act-AllSound db a h l.0) l.1

-- However often it is renewed, refreshed or marked, from a store with no sessions, a session token
-- whose session has passed its last possible expiry identifies nobody and changes nothing.
pub identify_after_max :
    (users : Dict Text Account) (roles : Dict Text (List Text)) (script : List Act) (works : Works)
    (token_expiry now : ℕ) (token : Text) (s : Session)
    → All IsLegal script
    → length token ≡ 24
    → lookup token (acts (record { sessions = []; users = users; roles = roles }) script).sessions
      ≡ some s
    → s.max_expiry < now
    → identify works token_expiry now token
        (acts (record { sessions = []; users = users; roles = roles }) script)
      ≡ (ok none, acts (record { sessions = []; users = users; roles = roles }) script)
unfolding identify identify_by_session identify_found
identify_after_max users roles script works token_expiry now token s legal l e late =
    let db = acts (record { sessions = []; users = users; roles = roles }) script in
    let sound =
      lookup-All IsSound token db.sessions
        (acts-AllSound (record { sessions = []; users = users; roles = roles }) script tt legal)
        e in
    after db e sound.0
  where
    after :
        (db : Db)
        → lookup token db.sessions ≡ some s
        → s.expiry ≤ s.max_expiry
        → identify works token_expiry now token db ≡ (ok none, db)
    after db e c = ground (arith, e, l, late)
