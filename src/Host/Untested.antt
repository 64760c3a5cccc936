-- ===== src/Host/Untested.antt =====
-- The test of a connection whose method requires a field that the test does not pass on.
use mathlib.Core.Path.{subst}
use mathlib.Core.Option.{some-ne-none}
use swirl_evo.Common.{
  sym, ◌≡◌, ◌≢◌, refl, not, ◌&&◌, ◌==◌, ◌⊎◌, inl, inr, if-cases, [], Option, none, some, Text,
  text_eq,
}
use swirl_evo.Host.{
  Host, HostError, missing_scheme, suggestion, tcp_tls, ssh, http, https, scheme_of,
  is_valid_scheme, suggested, agrees, missing_field, check_scheme, trimmed, check,
  validate_and_normalize_host,
}
use swirl_evo.Host.Store.{Info}
use swirl_evo.Host.Manage.{Result, success, invalid, rejected, unreachable, stub, test}

-- A host without a required field is refused, whatever its endpoint.
check-missing : (h : Host) → missing_field h ≢ none → check h ≢ none
unfolding check check_scheme
check-missing h n =
    if-cases P (h.name == []) _ _ (λ _ e. cc)
      (λ _.
        if-cases P (h.endpoint == []) _ _ (λ _ e. cc)
          (λ _.
            if-cases P (scheme_of h.endpoint == []) _ _
              (λ _. asked (suggested h.auth_method h.endpoint))
              (λ _.
                if-cases P (not (is_valid_scheme (scheme_of h.endpoint))) _ _ (λ _ e. cc)
                  (λ _.
                    if-cases P
                      (not (scheme_of h.endpoint == http)
                        && not (scheme_of h.endpoint == https)
                        && not (agrees (scheme_of h.endpoint) h.auth_method))
                      _ _ (λ _ e. cc) (λ _. n)))))
  where
    P : Option HostError → Type 0
    P r = r ≢ none

    asked :
        (o : Option Text)
        → elim o [ none ↦ some missing_scheme | some x ↦ some (suggestion x) ] ≢ none
    asked none e = cc
    asked (some x) e = cc

missing_field-stub :
    (endpoint auth_method : Text)
    → (auth_method ≡ ssh) ⊎ (auth_method ≡ tcp_tls)
    → missing_field (trimmed (stub endpoint auth_method)) ≢ none
unfolding missing_field
missing_field-stub endpoint auth_method (inl e) =
    let asked : missing_field (trimmed (stub endpoint ssh)) ≢ none = λ q. some-ne-none _ q in
    subst (λ a. missing_field (trimmed (stub endpoint a)) ≢ none) (sym e) asked
missing_field-stub endpoint auth_method (inr e) =
    let asked : missing_field (trimmed (stub endpoint tcp_tls)) ≢ none = λ q. some-ne-none _ q in
    subst (λ a. missing_field (trimmed (stub endpoint a)) ≢ none) (sym e) asked

-- The test of a connection by SSH or by TCP with TLS never succeeds, whatever the endpoint and even when
-- the daemon answers.
pub test-secured :
    (info : Option Info) (endpoint auth_method : Text)
    → (auth_method ≡ ssh) ⊎ (auth_method ≡ tcp_tls)
    → test info endpoint auth_method ≢ success
unfolding test validate_and_normalize_host
test-secured info endpoint auth_method h = go (check (trimmed (stub endpoint auth_method))) (
    check-missing (trimmed (stub endpoint auth_method)) (missing_field-stub endpoint auth_method h))
  where
    go :
        (o : Option HostError)
        → o ≢ none
        → let r : Result = elim o [
          | some e ↦ invalid e
          | none ↦ elim info [ none ↦ rejected unreachable | some _ ↦ success ]
        ] in
          r ≢ success
    go none n q = n refl
    go (some e) n q = cc
