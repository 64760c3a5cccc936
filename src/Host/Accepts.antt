-- ===== src/Host/Accepts.antt =====
-- Validation again: of what it has trimmed, and of what it suggests.
use swirl_evo.Common.{
  if-cases, ◌≡◌, ◌≢◌, refl, ap, true, false, not, ◌&&◌, ◌||◌, ◌==◌, ==_ne, [], ◌++◌, Option, none,
  some, Text, codes, trim_space, text_eq, arith,
}
use swirl_evo.Host.{
  Host, HostError, suggestion, missing_scheme, unix, tcp, tcp_tls, ssh, socket, http, https,
  scheme_of, is_valid_scheme, suggested, agrees, missing_field, check_scheme, trimmed, check,
  validate_and_normalize_host, has_prefix,
}
use swirl_evo.Host.Trim.{trim_space_idem, trim_space-prefix}

trimmed_idem : (h : Host) → trimmed (trimmed h) ≡ trimmed h
trimmed_idem h =
    rw (trim_space_idem h.name, trim_space_idem h.endpoint, trim_space_idem h.ssh_user) refl

-- A host that was validated is validated with the same result, and is not changed again.
validate_and_normalize_host_idem :
    (h : Host)
    → validate_and_normalize_host (validate_and_normalize_host h).0 ≡ validate_and_normalize_host h
unfolding validate_and_normalize_host
validate_and_normalize_host_idem h = ap (λ t. (t, check t)) (trimmed_idem h)

differs : (t : Text) → t == [] ≡ false → t ≢ []
differs t n q = ground (arith, n, q)

missing_field-not : (h : Host) (e : Text) → missing_field h ≢ some (suggestion e)
unfolding missing_field
missing_field-not h e q = absurd (ground (arith, q))

-- Where a suggestion comes from.
check_scheme-suggested :
    (h : Host) (e : Text)
    → check_scheme h ≡ some (suggestion e)
    → suggested h.auth_method h.endpoint ≡ some e
unfolding check_scheme
check_scheme-suggested h e =
    if-cases P (scheme_of h.endpoint == []) _ _ (λ _. asked (suggested h.auth_method h.endpoint))
      (λ _.
        if-cases P (not (is_valid_scheme (scheme_of h.endpoint))) _ _
          (λ _ q. absurd (ground (arith, q)))
          (λ _.
            if-cases P
              (not (scheme_of h.endpoint == http)
                && not (scheme_of h.endpoint == https)
                && not (agrees (scheme_of h.endpoint) h.auth_method))
              _ _ (λ _ q. absurd (ground (arith, q))) (λ _ q. absurd (missing_field-not h e q))))
  where
    P : Option HostError → Type 0
    P r = r ≡ some (suggestion e) → suggested h.auth_method h.endpoint ≡ some e

    asked :
        (o : Option Text)
        → elim o [ none ↦ some missing_scheme | some x ↦ some (suggestion x) ] ≡ some (suggestion e)
        → o ≡ some e
    asked none q = absurd (ground (arith, q))
    asked (some x) q = ground (arith, q)

check-suggested :
    (h : Host) (e : Text)
    → check h ≡ some (suggestion e)
    → (h.name ≢ []) × (h.endpoint ≢ []) × (suggested h.auth_method h.endpoint ≡ some e)
unfolding check
check-suggested h e =
    if-cases P (h.name == []) _ _ (λ _ q. absurd (ground (arith, q)))
      (λ a.
        if-cases P (h.endpoint == []) _ _ (λ _ q. absurd (ground (arith, q)))
          (λ b q. (differs h.name a, differs h.endpoint b, check_scheme-suggested h e q)))
  where
    P : Option HostError → Type 0
    P r =
        r ≡ some (suggestion e)
        → (h.name ≢ []) × (h.endpoint ≢ []) × (suggested h.auth_method h.endpoint ≡ some e)

-- An accepted scheme leaves the fields that its method requires.
check-accepts :
    (t : Host) (e scheme : Text)
    → t.name ≢ []
    → e ≢ []
    → scheme_of e ≡ scheme
    → is_valid_scheme scheme ≡ true
    → scheme == [] ≡ false
    → agrees scheme t.auth_method ≡ true
    → check (record t { endpoint = e }) ≡ missing_field t
unfolding check check_scheme missing_field
check-accepts t e scheme n m s v f a =
    rw (==_ne t.name [] n, ==_ne e [] m, s, f, v, a) ground (arith)

accepted :
    (h : Host) (p scheme e : Text)
    → (trim_space h.endpoint ≢ []
        → trim_space (p ++ trim_space h.endpoint) ≡ p ++ trim_space h.endpoint)
    → scheme_of (p ++ trim_space h.endpoint) ≡ scheme
    → is_valid_scheme scheme ≡ true
    → scheme == [] ≡ false
    → p ++ trim_space h.endpoint ≢ []
    → (trimmed h).name ≢ []
    → trim_space h.endpoint ≢ []
    → agrees scheme h.auth_method ≡ true
    → p ++ trim_space h.endpoint ≡ e
    → validate_and_normalize_host (record (trimmed h) { endpoint = e })
      ≡ (record (trimmed h) { endpoint = e }, missing_field (trimmed h))
unfolding validate_and_normalize_host
accepted h p scheme e same s v f full n m a q = rw⁻¹ q (
    rw (trim_space_idem h.name, trim_space_idem h.ssh_user, same m)
      (ap (λ r. (record (trimmed h) { endpoint = p ++ trim_space h.endpoint }, r))
        (check-accepts (trimmed h) (p ++ trim_space h.endpoint) scheme n full s v f a)))

-- An endpoint that the validation suggests is accepted with its scheme: when it is applied, what is left
-- to be asked for is a field that the method requires.
suggestion_accepted :
    (h : Host) (e : Text)
    → (validate_and_normalize_host h).1 ≡ some (suggestion e)
    → validate_and_normalize_host (record (validate_and_normalize_host h).0 { endpoint = e }) ≡ (
      record (validate_and_normalize_host h).0 { endpoint = e },
      missing_field (validate_and_normalize_host h).0,
    )
unfolding validate_and_normalize_host
suggestion_accepted h e q =
    let (n, m, s) = check-suggested (trimmed h) e q in
    let x = trim_space h.endpoint in
    if-cases P (h.auth_method == socket) _ _
      (λ a.
        if-cases P (has_prefix (codes "/") x) _ _
          (λ _ r.
            accepted h (codes "unix://") unix e
              (λ u. trim_space-prefix (codes "unix://") h.endpoint refl (differs _ refl) u) refl
              refl refl (differs _ refl) n m (ground (arith, a)) (ground (arith, r)))
          (λ _ r. absurd (ground (arith, r))))
      (λ a.
        if-cases P (h.auth_method == tcp || h.auth_method == tcp_tls) _ _
          (λ b r.
            accepted h (codes "tcp://") tcp e
              (λ u. trim_space-prefix (codes "tcp://") h.endpoint refl (differs _ refl) u) refl refl
              refl (differs _ refl) n m (ground (arith, b)) (ground (arith, r)))
          (λ b.
            if-cases P (h.auth_method == ssh) _ _
              (λ c r.
                accepted h (codes "ssh://") ssh e
                  (λ u. trim_space-prefix (codes "ssh://") h.endpoint refl (differs _ refl) u) refl
                  refl refl (differs _ refl) n m (ground (arith, c)) (ground (arith, r)))
              (λ c r. absurd (ground (arith, r)))))
      s
  where
    P : Option Text → Type 0
    P o =
        o ≡ some e
        → validate_and_normalize_host (record (trimmed h) { endpoint = e })
          ≡ (record (trimmed h) { endpoint = e }, missing_field (trimmed h))
