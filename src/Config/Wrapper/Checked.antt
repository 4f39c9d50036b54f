-- ===== src/Config/Wrapper/Checked.antt =====
-- What a configuration that passes the check is like.
use odd_box.Base.{
  ◌+◌, ◌++◌, ap, ◌∙◌, map, arith, none, some, eq_ignore_case, Exec, ◌&&◌, ◌||◌, ◌∷◌, ◌==◌, ◌≤◌, [],
  ok, err, true, false, not, if◌then◌else◌, refl, ◌≡◌, Bool-cases, inl, inr, bind-eq-ok, bytes_eq,
  bytes_eq_iff, ==_iff, has_duplicate, occurrences, occurrences-has_duplicate, tally, Bool, Bytes,
  List, Option, ℕ,
}
use odd_box.Config.Sites.{
  all, any, or_empty, or_false, DirServer, InProcessSiteConfig, OddBoxConfig, RemoteSiteConfig,
}
use odd_box.Http1.Message.{codes}
use odd_box.Config.Wrapper.{
  check_duplicates, check_lets_encrypt, check_port, check_processes, check_remotes, host_names,
  is_port, is_valid, ports, dir_name, remote_name, process_name, Invalid,
}

-- Certificates by Let's Encrypt are only asked for where TLS is terminated, and no subdomains are captured.
abbrev pub may_encrypt : Option Bool → Option Bool → Option Bool → Bool
may_encrypt enabled terminate_tls capture_subdomains =
    not (or_false enabled) || (or_false terminate_tls && not (or_false capture_subdomains))

abbrev pub remote_may_encrypt : RemoteSiteConfig → Bool
remote_may_encrypt x = may_encrypt x.enable_lets_encrypt x.terminate_tls x.capture_subdomains

abbrev pub process_may_encrypt : InProcessSiteConfig → Bool
process_may_encrypt x = may_encrypt x.enable_lets_encrypt x.terminate_tls x.capture_subdomains

abbrev pub times : Bytes → List Bytes → ℕ
times = occurrences bytes_eq

times-append : (n : Bytes) (xs ys : List Bytes) → times n (xs ++ ys) ≡ times n xs + times n ys
unfolding occurrences
times-append n [] ys = omega arith
times-append n (x ∷ xs) ys = ground (arith, times-append n xs ys)

pub names_add :
    (n : Bytes) (cfg : OddBoxConfig)
    → times n (host_names cfg)
      ≡ times n (map dir_name (or_empty cfg.dir_server))
        + (times n (map remote_name (or_empty cfg.remote_target))
            + times n (map process_name (or_empty cfg.hosted_process)))
unfolding host_names
names_add n cfg = omega (
  arith,
  times-append n (map dir_name (or_empty cfg.dir_server)) (
      map remote_name (or_empty cfg.remote_target)
      ++ map process_name (or_empty cfg.hosted_process)),
  times-append n (map remote_name (or_empty cfg.remote_target))
      (map process_name (or_empty cfg.hosted_process)),
)

-- What the check has tested.
pub record Passed (cfg : OddBoxConfig) : Type 0 where
  pub names : (n : Bytes) → occurrences bytes_eq n (host_names cfg) ≤ 1
  pub own_ports : (p : ℕ) → occurrences ◌==◌ p (ports (or_empty cfg.hosted_process)) ≤ 1
  pub no_global_port : any is_port cfg.env_vars ≡ false
  pub remotes_encrypt : all remote_may_encrypt (or_empty cfg.remote_target) ≡ true
  pub processes_encrypt : all process_may_encrypt (or_empty cfg.hosted_process) ≡ true

check_lets_encrypt-ok :
    (n : Bytes) (enabled terminate_tls capture : Option Bool)
    → check_lets_encrypt n enabled terminate_tls capture ≡ ok tt
    → may_encrypt enabled terminate_tls capture ≡ true
unfolding check_lets_encrypt
check_lets_encrypt-ok n enabled terminate_tls capture =
    by_tests (or_false enabled) (or_false terminate_tls) (or_false capture)
  where
    by_tests :
        (e t c : Bool)
        → ◌≡◌ {A = Exec Invalid (Unit {0})}
            (if e
              then (if not t
                  then err (Invalid.lets_encrypt_in_tunnel n)
                  else if c
                  then err (Invalid.lets_encrypt_with_subdomains n)
                  else ok tt)
              else ok tt)
            (ok tt)
        → (not e || (t && not c)) ≡ true
    by_tests false t c h = refl
    by_tests true true false h = refl
    by_tests true true true h = absurd (cc)
    by_tests true false c h = absurd (cc)

check_remotes-ok :
    (xs : List RemoteSiteConfig) → check_remotes xs ≡ ok tt → all remote_may_encrypt xs ≡ true
unfolding check_remotes all
check_remotes-ok [] h = refl
check_remotes-ok (x ∷ xs) h =
    let (u, first, rest) = bind-eq-ok _ _ h in
    rw
      (check_lets_encrypt-ok x.host_name x.enable_lets_encrypt x.terminate_tls x.capture_subdomains
        first)
      (check_remotes-ok xs rest)

check_processes-ok :
    (xs : List InProcessSiteConfig) → check_processes xs ≡ ok tt → all process_may_encrypt xs ≡ true
unfolding check_processes all
check_processes-ok [] h = refl
check_processes-ok (x ∷ xs) h =
    let (u, first, rest) = bind-eq-ok _ _ h in
    let (v, port, later) = bind-eq-ok (check_port x.host_name x.port x.env_vars) _ rest in
    rw
      (check_lets_encrypt-ok x.host_name x.enable_lets_encrypt x.terminate_tls x.capture_subdomains
        first)
      (check_processes-ok xs later)

check_duplicates-ok :
    (names : List Bytes) (ps : List ℕ)
    → check_duplicates names ps ≡ ok tt
    → (has_duplicate bytes_eq (tally bytes_eq names []) ≡ false)
      × (has_duplicate ◌==◌ (tally ◌==◌ ps []) ≡ false)
unfolding check_duplicates
check_duplicates-ok names ps =
    by_tests (has_duplicate bytes_eq (tally bytes_eq names []))
      (has_duplicate ◌==◌ (tally ◌==◌ ps []))
  where
    by_tests :
        (a b : Bool)
        → ◌≡◌ {A = Exec Invalid (Unit {0})}
            (if a
              then err Invalid.duplicate_host_names
              else if b
              then err Invalid.duplicate_ports
              else ok tt)
            (ok tt)
        → (a ≡ false) × (b ≡ false)
    by_tests false false h = (refl, refl)
    by_tests false true h = absurd (cc)
    by_tests true b h = absurd (cc)

pub is_valid-Passed : (cfg : OddBoxConfig) → is_valid cfg ≡ ok tt → Passed cfg
unfolding is_valid
is_valid-Passed cfg h = elim (Bool-cases (any is_port cfg.env_vars)) [
  | inl global ↦ let never = rw global at h in absurd (cc)
  | inr none_global ↦
      let (u, remotes, rest) =
        bind-eq-ok (check_remotes (or_empty cfg.remote_target)) _ (rw none_global at h) in
      let (v, processes, last) =
        bind-eq-ok (check_processes (or_empty cfg.hosted_process)) _ rest in
      let (names, own) =
        check_duplicates-ok (host_names cfg) (ports (or_empty cfg.hosted_process)) last in
      record {
        names = λ n. occurrences-has_duplicate bytes_eq bytes_eq_iff n (host_names cfg) names;
        own_ports =
            λ p. occurrences-has_duplicate ◌==◌ ==_iff p (ports (or_empty cfg.hosted_process)) own;
        no_global_port = none_global;
        remotes_encrypt = check_remotes-ok (or_empty cfg.remote_target) remotes;
        processes_encrypt = check_processes-ok (or_empty cfg.hosted_process) processes;
      }
]

-- How many of a list pass a test.
abbrev pub uses {ℓ} : {A : Type ℓ} → (A → Bool) → List A → ℕ
uses test [] = 0
uses test (x ∷ xs) = let rest = uses test xs in if test x then 1 + rest else rest

abbrev pub is_at : Option ℕ → ℕ → Bool
is_at none p = false
is_at (some q) p = q == p

-- Every host name is used once at most, over directory servers, remote sites and processes, and so is every port that a
-- process is configured for; no global variable is named `port`, in any case; and certificates are asked for where they
-- can be.
pub record IsSound (cfg : OddBoxConfig) : Type 0 where
  pub names :
      (n : Bytes)
      → uses (λ (x : DirServer). bytes_eq x.host_name n) (or_empty cfg.dir_server)
          + (uses (λ (x : RemoteSiteConfig). bytes_eq x.host_name n) (or_empty cfg.remote_target)
              + uses
                  (λ (x : InProcessSiteConfig). bytes_eq x.host_name n)
                  (or_empty cfg.hosted_process))
        ≤ 1
  pub own_ports :
      (p : ℕ) → uses (λ (x : InProcessSiteConfig). is_at x.port p) (or_empty cfg.hosted_process) ≤ 1
  pub no_global_port : any (λ v. eq_ignore_case v.key (codes "port")) cfg.env_vars ≡ false
  pub remotes_encrypt : all remote_may_encrypt (or_empty cfg.remote_target) ≡ true
  pub processes_encrypt : all process_may_encrypt (or_empty cfg.hosted_process) ≡ true

times-map {ℓ} :
    {A : Type ℓ} (name : A → Bytes) (n : Bytes) (xs : List A)
    → times n (map name xs) ≡ uses (λ x. bytes_eq (name x) n) xs
unfolding occurrences
times-map name n [] = refl
times-map name n (x ∷ xs) = ap (λ k. if bytes_eq (name x) n then 1 + k else k) (times-map name n xs)

port_counted :
    (p : ℕ) (o : Option ℕ) (rest : List ℕ)
    → occurrences ◌==◌ p (elim o [ none ↦ rest | some q ↦ q ∷ rest ])
      ≡ (if is_at o p then 1 + occurrences ◌==◌ p rest else occurrences ◌==◌ p rest)
unfolding occurrences
port_counted p none rest = refl
port_counted p (some q) rest = refl

occurrences-ports :
    (p : ℕ) (xs : List InProcessSiteConfig)
    → occurrences ◌==◌ p (ports xs) ≡ uses (λ (x : InProcessSiteConfig). is_at x.port p) xs
unfolding ports occurrences
occurrences-ports p [] = refl
occurrences-ports p (x ∷ xs) =
    port_counted p x.port (ports xs)
    ∙ ap (λ k. if is_at x.port p then 1 + k else k) (occurrences-ports p xs)

-- A configuration that passes the check uses every host name once at most, over the three kinds of site, and every port
-- of a process once at most; none of its global variables is the port; and a site for which certificates are asked of
-- Let's Encrypt terminates TLS and captures no subdomains.
pub is_valid-IsSound : (cfg : OddBoxConfig) → is_valid cfg ≡ ok tt → IsSound cfg
is_valid-IsSound cfg h =
    let passed = is_valid-Passed cfg h in
    record {
      names = λ n. omega (
        arith,
        passed.names n,
        names_add n cfg,
        times-map dir_name n (or_empty cfg.dir_server),
        times-map remote_name n (or_empty cfg.remote_target),
        times-map process_name n (or_empty cfg.hosted_process),
      );
      own_ports =
          λ p. omega (arith, passed.own_ports p, occurrences-ports p (or_empty cfg.hosted_process));
      no_global_port = passed.no_global_port;
      remotes_encrypt = passed.remotes_encrypt;
      processes_encrypt = passed.processes_encrypt;
    }
