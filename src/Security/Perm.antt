-- ===== src/Security/Perm.antt =====
-- security/perm.go: a permission `resource.action` as bits of one 64-bit word, and the filter that
-- asks for one. A table lists the exponents of the source's `1 << k`.
pub mod Grants
use Prim.Native.Nat.{bit_and, bit_or}
use swirl_evo.Common.{
  ℕ, ◌*◌, ◌%◌, ◌^◌, Bool, true, false, ◌&&◌, ◌||◌, not, ◌==◌, List, [], ◌∷◌, Option, none, some,
  Text, codes, cut, ltb, text_eq, string_eq, if◌then◌else◌, String,
}

abbrev pub action_bits : ℕ
action_bits = 24

abbrev pub resources : List (Text × ℕ)
resources =
    (codes "registry", 0)
    ∷ (codes "node", 1)
    ∷ (codes "network", 2)
    ∷ (codes "service", 3)
    ∷ (codes "task", 4)
    ∷ (codes "stack", 5)
    ∷ (codes "config", 6)
    ∷ (codes "secret", 7)
    ∷ (codes "image", 8)
    ∷ (codes "container", 9)
    ∷ (codes "volume", 10)
    ∷ (codes "user", 11)
    ∷ (codes "role", 12)
    ∷ (codes "chart", 13)
    ∷ (codes "dashboard", 14)
    ∷ (codes "event", 15)
    ∷ (codes "setting", 16)
    ∷ (codes "host", 17)
    ∷ (codes "backup", 18)
    ∷ (codes "vault", 19)
    ∷ (codes "vault_secret", 20)
    ∷ (codes "self_deploy", 21)
    ∷ (codes "federation", 22)
    ∷ (codes "registry_cache", 23)
    ∷ []

abbrev pub actions : List (Text × ℕ)
actions =
    (codes "view", 0)
    ∷ (codes "edit", 1)
    ∷ (codes "delete", 2)
    ∷ (codes "disconnect", 3)
    ∷ (codes "restart", 4)
    ∷ (codes "rollback", 5)
    ∷ (codes "logs", 6)
    ∷ (codes "deploy", 7)
    ∷ (codes "shutdown", 8)
    ∷ (codes "execute", 9)
    ∷ (codes "restore", 10)
    ∷ (codes "download", 11)
    ∷ (codes "admin", 12)
    ∷ (codes "recover", 13)
    ∷ (codes "push", 14)
    ∷ (codes "cleanup", 15)
    ∷ []

-- The exponent that a table gives a name.
unfoldable pub exponent : Text → List (Text × ℕ) → Option ℕ
exponent name [] = none
exponent name ((n, k) ∷ table) =
    let later = exponent name table in if n == name then some k else later

-- A missing key of a Go map reads as 0.
abbrev pub word_of : Option ℕ → ℕ
word_of none = 0
word_of (some k) = 2 ^ k

-- `r << ActionBits` in 64 bits.
pub shifted : ℕ → ℕ
shifted r = (r * 2 ^ action_bits) % 2 ^ 64

abbrev pub dot : Text
dot = codes "."

-- The loop of `NewPermMap`, from the word that it has so far.
new_perm_map_from : ℕ → List Text → ℕ
new_perm_map_from p [] = p
new_perm_map_from p (perm ∷ perms) = elim (cut dot perm) [
  | none ↦ new_perm_map_from p perms
  | some (r, a) ↦
      new_perm_map_from
        (bit_or (bit_or p (shifted (word_of (exponent r resources))))
          (word_of (exponent a actions)))
        perms
]

unfoldable pub new_perm_map : List Text → ℕ
unfolding new_perm_map_from exponent shifted
new_perm_map perms = new_perm_map_from 0 perms

unfoldable pub contains : ℕ → Text → Bool
unfolding exponent shifted
contains p perm = elim (cut dot perm) [
  | none ↦ false
  | some (r, a) ↦
      ltb 0 (bit_and p (shifted (word_of (exponent r resources))))
      && ltb 0 (bit_and p (word_of (exponent a actions)))
]

pub record User : Type 0 where
  pub token : Text
  pub id : Text
  pub name : Text
  pub admin : Bool
  pub perm : ℕ

unfoldable pub check : User → Text → Bool
check u auth = if u.admin then true else contains u.perm auth

pub data Verdict : Type 0 where
  passes unauthorized forbidden : Verdict

-- `Authorizer.Apply`, with the two names that the web package reserves (`web.AuthAnonymous`,
-- `web.AuthAuthenticated`). A handler that passes is called as it is.
module _ (auth_anonymous auth_authenticated : Text) where
  unfoldable pub authorize : Text → Option User → Verdict
  unfolding check
  authorize auth user = if auth == [] || auth == auth_anonymous then passes else elim user [
    | none ↦ unauthorized
    | some u ↦
        if u.id == []
        then unauthorized
        else if not (auth == auth_authenticated) && not (check u auth)
        then forbidden
        else passes
  ]
