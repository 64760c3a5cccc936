-- ===== src/Security/Tests.antt =====
-- The theorems on permissions and sessions at concrete inputs.
use mathlib.Core.Bool.{false≢true}
use swirl_evo.Common.{
  ◌^◌, cut, ◌≡◌, ◌≢◌, refl, arith, Bool, true, false, length, List, [], ◌∷◌, none, some, Text,
  codes, ==_iff, text_eq, if◌then◌else◌,
}
use swirl_evo.Common.Dict.{lookup, replace}
use swirl_evo.Security.Perm.{exponent, User, new_perm_map, contains, check}
use swirl_evo.Security.Perm.Grants.{grants, contains-new_perm_map, cross_grant}
use swirl_evo.Security.Session.{
  new_session, star, fill_session, Session, Account, Db, ok, panics, identify, create_session,
  session_update_dirty, get_perms, user_get_by_token,
}
use swirl_evo.Security.Session.Expiry.{Act, act, logs_in, acts, identify_after_max}
use swirl_evo.Security.Session.Identity.{
  is_missing, all_work, visits, visits-dirty, identify-session_update_dirty, deleted_role-panics,
}

abbrev two_perms : List Text
two_perms = codes "service.view" ∷ codes "stack.deploy" ∷ []

contains-new_perm_map_example :
    contains (new_perm_map two_perms) (codes "stack.deploy")
    ≡ grants two_perms (codes "stack.deploy")
contains-new_perm_map_example = contains-new_perm_map two_perms (codes "stack.deploy")

cross_grant_example :
    contains
      (new_perm_map (codes "service.view" ∷ codes "config.delete" ∷ []))
      (codes "service.delete")
    ≡ true
unfolding cut exponent
cross_grant_example =
    cross_grant (codes "service.view") (codes "config.delete") (codes "service.delete")
      (codes "service") (codes "config") (codes "view") (codes "delete") 3 2 refl refl refl refl
      refl

abbrev token : Text
token = codes "507f1f77bcf86cd799439011"

abbrev bob : Account
bob = record {
  id = codes "bob";
  name = codes "Bob";
  login_name = codes "bob";
  kind = codes "internal";
  status = 1;
  admin = false;
  roles = codes "ops" ∷ [];
  tokens = (codes "ci", codes "t0") ∷ [];
}

abbrev session_of : Bool → Session
session_of dirty = record {
  id = token;
  user_id = codes "bob";
  username = codes "Bob";
  admin = true;
  roles = [];
  perms = [];
  perm = 0;
  dirty = dirty;
  expiry = 50;
  max_expiry = 60;
  created_at = 1;
  updated_at = 1;
}

abbrev db_of : Bool → Db
db_of dirty = record {
  sessions = (token, session_of dirty) ∷ [];
  users = (codes "bob", bob) ∷ [];
  roles = (codes "ops", two_perms) ∷ [];
}

differ : codes "bob" ≢ token
differ e = false≢true ((==_iff (codes "bob") token).1 e)

short : length (codes "bob") ≢ 24
short = omega arith

bob_named : codes "bob" ≢ []
bob_named e = false≢true ((==_iff (codes "bob") []).1 e)

identify-session_update_dirty_example :
    (v : User) × ((identify all_work 100 9 token
        (session_update_dirty 8 (codes "bob") [] (db_of false))).0
      ≡ ok (some v))
    × (v.id ≡ codes "bob")
    × ((auth : Text) → check v auth ≡ (if false then true else grants two_perms auth))
unfolding lookup get_perms
identify-session_update_dirty_example =
    identify-session_update_dirty 100 8 9 [] token (db_of false) (session_of false) bob two_perms
      refl refl bob_named (omega arith) refl (λ _. refl)

visits-dirty_example :
    lookup token
      (visits token ((all_work, 100, 9) ∷ (all_work, 100, 49) ∷ []) (db_of true)).sessions
    ≡ some (session_of true)
unfolding lookup
visits-dirty_example =
    visits-dirty token ((all_work, 100, 9) ∷ (all_work, 100, 49) ∷ []) (db_of true)
      (session_of true) refl refl refl differ

abbrev root : Account
root = record bob { admin = true; roles = [] }

abbrev empty : Db
empty = record { sessions = []; users = (codes "bob", root) ∷ []; roles = [] }

abbrev script : List Act
script = logs_in all_work 10 5 token (codes "bob") (codes "Bob") ∷ []

abbrev logged_in : Session
logged_in = record (new_session 10 5 token (codes "bob") (codes "Bob")) {
  perms = star ∷ [];
  admin = true;
  created_at = 5;
  updated_at = 5;
}

identify_after_max_example :
    identify all_work 10 (10 ^ 18) token (acts empty script) ≡ (ok none, acts empty script)
unfolding acts act create_session fill_session lookup replace
identify_after_max_example =
    identify_after_max ((codes "bob", root) ∷ []) [] script all_work 10 (10 ^ 18) token logged_in
      (short, tt) refl refl (omega arith)

t0_named : codes "t0" ≢ []
t0_named e = false≢true ((==_iff (codes "t0") []).1 e)

abbrev no_roles : Db
no_roles = record { sessions = []; users = (codes "bob", bob) ∷ []; roles = [] }

deleted_role-panics_example :
    (create_session all_work 10 5 token (codes "bob") (codes "Bob") no_roles ≡ panics)
    × (identify all_work 10 5 (codes "t0") no_roles ≡ (panics, no_roles))
unfolding lookup user_get_by_token is_missing
deleted_role-panics_example =
    deleted_role-panics 10 5 token (codes "Bob") (codes "t0") no_roles bob (codes "bob") refl refl
      refl refl t0_named (omega arith)
