-- ===== src/Security/Session.antt =====
-- security/auth.go with biz/session.go, biz/role.go and dao/bolt/session.go: from a token to the user
-- that a handler sees. Times are nanoseconds. Whether a read or write of the store works is an
-- argument; what goes wrong in Go by a nil pointer is `panics`.
pub mod Expiry
pub mod Identity
use swirl_evo.Common.{
  ℕ, ◌+◌, ◌*◌, ◌^◌, Bool, true, false, ◌&&◌, ◌||◌, not, ◌==◌, List, [], ◌∷◌, ◌++◌, map, any, Option,
  none, some, Text, codes, length, ltb, eqb, text_eq, if◌then◌else◌,
}
use swirl_evo.Common.Dict.{Dict, lookup, replace}
use swirl_evo.Security.Perm.{User, new_perm_map}

pub record Session : Type 0 where
  pub id : Text
  pub user_id : Text
  pub username : Text
  pub admin : Bool
  pub roles : List Text
  pub perms : List Text
  pub perm : ℕ
  pub dirty : Bool
  pub expiry : ℕ
  pub max_expiry : ℕ
  pub created_at : ℕ
  pub updated_at : ℕ

-- What the code reads of `dao.User`.
pub record Account : Type 0 where
  pub id : Text
  pub name : Text
  pub login_name : Text
  pub kind : Text
  pub status : ℕ
  pub admin : Bool
  pub roles : List Text
  pub tokens : List (Text × Text)

-- Three buckets of the Bolt store. A role is its permissions.
pub record Db : Type 0 where
  pub sessions : Dict Text Session
  pub users : Dict Text Account
  pub roles : Dict Text (List Text)

-- Which operations of the store work.
pub record Works : Type 0 where
  pub session_get : Bool
  pub session_put : Bool
  pub user_get : Bool
  pub user_find : Bool
  pub role_get : Bool

pub data Result {ℓ} (A : Type ℓ) : Type ℓ where
  ok : A → Result A
  failed panics : Result A

infixl 5 ◌>>=◌
abbrev pub ◌>>=◌ {ℓ κ} : {A : Type ℓ} {B : Type κ} → Result A → (A → Result B) → Result B
ok a >>= f = f a
failed >>= f = failed
panics >>= f = panics

-- `getPerms` collects into a map; the model keeps the order of first occurrence.
abbrev pub add_perm : List Text → Text → List Text
add_perm m p = if any (λ q. q == p) m then m else m ++ p ∷ []

abbrev pub add_perms : List Text → List Text → List Text
add_perms m [] = m
add_perms m (p ∷ ps) = add_perms (add_perm m p) ps

get_perms_from : Works → Dict Text (List Text) → List Text → List Text → Result (List Text)
get_perms_from works roles m [] = ok m
get_perms_from works roles m (id ∷ ids) =
    if not works.role_get then failed else elim (lookup id roles) [
      | none ↦ panics
      | some perms ↦ get_perms_from works roles (add_perms m perms) ids
    ]

-- `GetPerms`. `RoleGet` returns a nil role for an unknown id, and the loop reads its `Perms`.
unfoldable pub get_perms : Works → Dict Text (List Text) → List Text → Result (List Text)
unfolding get_perms_from lookup
get_perms works roles ids = get_perms_from works roles [] ids

abbrev pub star : Text
star = codes "*"

-- The part of `fillSession` behind the look-up of the account.
fill_from : Works → Db → Account → Session → Result Session
fill_from works db u s =
    if u.admin
    then ok (record s { perms = star ∷ []; username = u.name; admin = u.admin; roles = u.roles })
    else do
      perms ← get_perms works db.roles u.roles
      ok (record s {
        perms = perms;
        perm = new_perm_map perms;
        username = u.name;
        admin = u.admin;
        roles = u.roles;
      })

unfoldable pub fill_session : Works → Db → Session → Result Session
unfolding fill_from
fill_session works db s =
    if not works.user_get
    then failed
    else elim (lookup s.user_id db.users) [ none ↦ failed | some u ↦ fill_from works db u s ]

-- `SessionUpdate` of dao/bolt/session.go, which writes under the user's id.
unfoldable pub session_update : Session → Db → Db
session_update s db = record db { sessions = replace s.user_id s db.sessions }

-- `updateSession` and `Update` of biz/session.go.
unfoldable pub update_session : Works → ℕ → Db → Session → Result (Session × Db)
unfolding session_update
update_session works now db s = do
  filled ← fill_session works db s
  let clean = record filled { dirty = false; updated_at = now }
  if works.session_put then ok (clean, session_update clean db) else failed

-- `SessionUpdateExpiry`: an unknown id is an error, which `renewSession` only logs.
unfoldable pub session_update_expiry : ℕ → Text → ℕ → Db → Db
session_update_expiry now id expiry db = elim (lookup id db.sessions) [
  | none ↦ db
  | some s ↦ record db {
    sessions = replace id (record s { expiry = expiry; updated_at = now }) db.sessions;
  }
]

abbrev pub min_time : ℕ → ℕ → ℕ
min_time a b = if ltb b a then b else a

unfoldable pub renew_session : Works → ℕ → ℕ → Session → Db → Db
unfolding session_update_expiry
renew_session works token_expiry now s db =
    if works.session_put
    then session_update_expiry now s.id (min_time (now + token_expiry) s.max_expiry) db
    else db

unfoldable pub create_user : Session → User
create_user s = record {
  token = s.id;
  id = s.user_id;
  name = s.username;
  admin = s.admin;
  perm = s.perm;
}

abbrev pub five_minutes : ℕ
five_minutes = 5 * 60 * 10 ^ 9

abbrev pub day : ℕ
day = 24 * 3600 * 10 ^ 9

-- Who the request comes from, and the store afterwards.
abbrev pub Identified : Type 0
Identified = Result (Option User) × Db

identified_dirty : Db → Result (Session × Db) → Identified
unfolding create_user
identified_dirty db (ok (s, db')) = (ok (some (create_user s)), db')
identified_dirty db failed = (ok none, db)
identified_dirty db panics = (panics, db)

identify_found : Works → ℕ → ℕ → Session → Db → Identified
unfolding identified_dirty update_session renew_session create_user
identify_found works token_expiry now s db =
    if ltb s.expiry now
    then (ok none, db)
    else if s.dirty
    then identified_dirty db (update_session works now db s)
    else if ltb s.expiry (now + five_minutes)
    then (ok (some (create_user s)), renew_session works token_expiry now s db)
    else (ok (some (create_user s)), db)

-- `identifyBySession`.
unfoldable pub identify_by_session : Works → ℕ → ℕ → Text → Db → Identified
unfolding identify_found
identify_by_session works token_expiry now token db =
    if not works.session_get then (ok none, db) else elim (lookup token db.sessions) [
      | none ↦ (ok none, db)
      | some s ↦ identify_found works token_expiry now s db
    ]

-- `UserGetByToken`: the first account, in the order of the bucket, with a token of that value.
-- A list that is left out where it is empty (`omitempty`) does not overwrite the one decoded before it.
abbrev pub or_kept {ℓ} : {A : Type ℓ} → List A → List A → List A
or_kept [] seen = seen
or_kept (x ∷ l) seen = x ∷ l

-- `decode` of a stored account into the struct of the one before it.
abbrev pub decode_over : Account → Account → Account
decode_over seen u = record u {
  roles = or_kept u.roles seen.roles;
  tokens = or_kept u.tokens seen.tokens;
}

-- `Dao.find`: all accounts are decoded into one struct.
unfoldable pub find_by_token : Text → Account → Dict Text Account → Option Account
find_by_token token seen [] = none
find_by_token token seen ((id, u) ∷ users) =
    let read = decode_over seen u in
    let later = find_by_token token read users in
    if any (λ t. t.1 == token) read.tokens then some read else later

abbrev pub no_account : Account
no_account = record {
  id = [];
  name = [];
  login_name = [];
  kind = [];
  status = 0;
  admin = false;
  roles = [];
  tokens = [];
}

-- `UserGetByToken`.
unfoldable pub user_get_by_token : Text → Dict Text Account → Option Account
unfolding find_by_token
user_get_by_token token users = find_by_token token no_account users

-- `identifyByToken`.
unfoldable pub identify_by_token : Works → Text → Db → Result (Option User)
unfolding user_get_by_token
identify_by_token works token db =
    if not works.user_find then ok none else elim (user_get_by_token token db.users) [
      | none ↦ ok none
      | some u ↦ elim (get_perms works db.roles u.roles) [
        | ok perms ↦ ok (
            some (record {
              token = token;
              id = u.id;
              name = u.name;
              admin = u.admin;
              perm = new_perm_map perms;
            }))
        | failed ↦ ok none
        | panics ↦ panics
      ]
    ]

-- The identification in `Identifier.Apply`: a token of 24 bytes is a session's.
unfoldable pub identify : Works → ℕ → ℕ → Text → Db → Identified
unfolding identify_by_session identify_by_token
identify works token_expiry now token db =
    if token == []
    then (ok none, db)
    else if eqb (length token) 24
    then identify_by_session works token_expiry now token db
    else (identify_by_token works token db, db)

-- A session that a login begins with.
abbrev pub new_session : ℕ → ℕ → Text → Text → Text → Session
new_session token_expiry now id user_id name = record {
  id = id;
  user_id = user_id;
  username = name;
  admin = false;
  roles = [];
  perms = [];
  perm = 0;
  dirty = false;
  expiry = now + token_expiry;
  max_expiry = now + token_expiry + day;
  created_at = 0;
  updated_at = 0;
}

-- `createSession` and `Create` of biz/session.go, for a fresh id.
unfoldable pub create_session : Works → ℕ → ℕ → Text → Text → Text → Db → Result (Session × Db)
create_session works token_expiry now id user_id name db = do
  s ← fill_session works db (new_session token_expiry now id user_id name)
  let made = record s { created_at = now; updated_at = now }
  if works.session_put
      then ok (made, record db { sessions = replace id made db.sessions })
      else failed

mark_dirty : ℕ → Text → Text → Dict Text Session → Dict Text Session
mark_dirty now user_id role_id [] = []
mark_dirty now user_id role_id ((k, s) ∷ sessions) =
    let rest = mark_dirty now user_id role_id sessions in
    if (not (user_id == []) && s.user_id == user_id)
      || (not (role_id == []) && any (λ r. r == role_id) s.roles)
    then (k, record s { dirty = true; updated_at = now }) ∷ rest
    else (k, s) ∷ rest

-- `SessionUpdateDirty`, after a change of a user or of a role.
unfoldable pub session_update_dirty : ℕ → Text → Text → Db → Db
unfolding mark_dirty
session_update_dirty now user_id role_id db = record db {
  sessions = mark_dirty now user_id role_id db.sessions;
}
