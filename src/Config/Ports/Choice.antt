-- ===== src/Config/Ports/Choice.antt =====
-- The port that is chosen: the first available one, and never one that another process has.
use odd_box.Config.Sites.{or_empty, InProcessSiteConfig, FullyResolved, OddBoxConfig}
use odd_box.Base.{
  sym, ◌∙◌, ◌==◌, ==_iff, Bool-cases, inl, inr, [], ◌∷◌, ◌-◌, ◌+◌, refl, subst, true, ok-injective,
  bind-eq-ok, ◌<◌, ◌^◌, ap, ◌≤◌, arith, ok, false, none, some, ◌≡◌, ◌≢◌, List, Option, Bool, ℕ,
}
use odd_box.Config.Ports.Search.{find_port-IsFirst, available, find_port-available}
use odd_box.Config.Ports.Claims.{ClaimedByOther-contains, contains-ClaimedByOther, ClaimedByOther}
use odd_box.Config.Ports.{
  mark, mark_active, mark_sites, contains, port_variable, preferred_of, busy_ports,
  select_preferred, taken_by_others, keep_current, select_any, select_variable, set_active_port,
}

-- The first site with the identifier is marked as running on the port, and no other is changed.
pub data IsMarked (id p : ℕ) : List InProcessSiteConfig → List InProcessSiteConfig → Type 0 where
  nowhere : IsMarked id p [] []
  at_first :
      {x : InProcessSiteConfig} {xs : List InProcessSiteConfig}
      → x.proc_id ≡ id
      → IsMarked id p (x ∷ xs) (record x { active_port = some p } ∷ xs)
  behind :
      {x : InProcessSiteConfig} {xs ys : List InProcessSiteConfig}
      → x.proc_id ≢ id
      → IsMarked id p xs ys
      → IsMarked id p (x ∷ xs) (x ∷ ys)

module _ (port_is_free : ℕ → Bool) (random_free_port : Option ℕ) where
  -- The ports of the other processes, as `set_active_port` collects them.
  abbrev pub others_ports : OddBoxConfig → FullyResolved → List ℕ
  others_ports config proc = taken_by_others proc.proc_id (busy_ports config)

  -- No other process is configured for the port or runs on it, and the operating system has it free.
  pub record IsUnclaimed (config : OddBoxConfig) (proc : FullyResolved) (p : ℕ) : Type 0 where
    pub unclaimed : ¬ ClaimedByOther proc.proc_id p (or_empty config.hosted_process)
    pub free : port_is_free p ≡ true

  IsUnclaimed-available :
      (config : OddBoxConfig) (proc : FullyResolved) (p : ℕ)
      → IsUnclaimed config proc p
      → available port_is_free random_free_port (others_ports config proc) p ≡ true
  unfolding busy_ports
  IsUnclaimed-available config proc p u =
      elim (Bool-cases (contains (others_ports config proc) p)) [
        | inl taken ↦ absurd (
            u.unclaimed
              (contains-ClaimedByOther proc.proc_id p (or_empty config.hosted_process) taken))
        | inr other ↦ rw (other, u.free) refl
      ]

  pub available-IsUnclaimed :
      (config : OddBoxConfig) (proc : FullyResolved) (p : ℕ)
      → available port_is_free random_free_port (others_ports config proc) p ≡ true
      → IsUnclaimed config proc p
  unfolding busy_ports
  available-IsUnclaimed config proc p a = record {
    unclaimed = λ c.
        let taken = ClaimedByOther-contains proc.proc_id p c in
        let never : false ≡ true = rw taken at a in absurd (cc);
    free = ground arith;
  }

  -- The first unclaimed port from the start of the range.
  pub record IsFirstUnclaimed (config : OddBoxConfig) (proc : FullyResolved) (p : ℕ) : Type 0 where
    pub from_start : config.port_range_start ≤ p
    pub is_unclaimed : IsUnclaimed config proc p
    pub none_before : (q : ℕ) → config.port_range_start ≤ q → q < p → ¬ IsUnclaimed config proc q

  mark_active-IsMarked :
      (id p : ℕ) (sites : List InProcessSiteConfig) → IsMarked id p sites (mark_active id p sites)
  unfolding mark_active
  mark_active-IsMarked id p [] = nowhere
  mark_active-IsMarked id p (x ∷ xs) = elim (Bool-cases (x.proc_id == id)) [
    | inl it ↦ rw it (at_first ((==_iff x.proc_id id).0 it))
    | inr other ↦ rw other (behind (λ e. absurd (ground arith)) (mark_active-IsMarked id p xs))
  ]

  mark-IsMarked :
      (config : OddBoxConfig) (id p : ℕ) (sites : Option (List InProcessSiteConfig))
      → IsMarked id p (or_empty sites) (or_empty (mark_sites id p sites))
  mark-IsMarked config id p none = nowhere
  mark-IsMarked config id p (some sites) = mark_active-IsMarked id p sites

  -- A process that has no port, is configured for none and has no variable for it gets the first port from the start of
  -- the range that no other process is configured for or runs on and that the operating system has free, if there is
  -- one below 2 ^ 16. In the configuration the first site of its identifier is marked as running on that port, and
  -- nothing else is changed.
  pub set_active_port-IsFirst :
      (config : OddBoxConfig) (proc : FullyResolved) (q : ℕ)
      → proc.active_port ≡ none
      → proc.port ≡ none
      → port_variable (or_empty proc.env_vars) ≡ none
      → config.port_range_start ≤ q
      → q < 2 ^ 16
      → IsUnclaimed config proc q
      → (p : ℕ) × (sites : Option (List InProcessSiteConfig)) × (set_active_port port_is_free
            random_free_port config proc
          ≡ ok (p, record config { hosted_process = sites }))
        × IsMarked proc.proc_id p (or_empty config.hosted_process) (or_empty sites)
        × IsFirstUnclaimed config proc p
  unfolding set_active_port keep_current select_preferred select_any select_variable
  set_active_port-IsFirst config proc q no_active no_port no_variable l u a =
      let onward : config.port_range_start + (q - config.port_range_start) ≡ q = omega arith in
      let (p, e, f) =
        find_port-IsFirst port_is_free random_free_port (q - config.port_range_start) (2 ^ 16)
          (others_ports config proc) config.port_range_start (omega arith) (omega arith)
          (subst (λ n. available port_is_free random_free_port (others_ports config proc) n ≡ true)
            (sym onward) (IsUnclaimed-available config proc q a)) in
      (
        p,
        mark_sites proc.proc_id p config.hosted_process,
        rw (no_active, no_port, no_variable, e),
        mark-IsMarked config proc.proc_id p config.hosted_process,
        record {
          from_start = f.from_start;
          is_unclaimed = available-IsUnclaimed config proc p f.is_available;
          none_before = λ r l u unclaimed.
              let free = IsUnclaimed-available config proc r unclaimed in
              let not_free = f.none_before r l u in
              let never : false ≡ true = sym not_free ∙ free in absurd (cc);
        },
      )

  preferred_avoids :
      (taken : List ℕ) (port : Option ℕ) {x : ℕ}
      → port ≢ some 0
      → preferred_of port_is_free random_free_port taken port none none ≡ some x
      → contains taken x ≡ false
  unfolding select_variable
  preferred_avoids taken none {x} n e = cc
  preferred_avoids taken (some y) {x} n e = ground (arith, ap (λ k. some k) {x = y} {y = 0})

  select_any_avoids :
      (taken : List ℕ) (start : ℕ) (selected : Option ℕ) {p : ℕ}
      → ((x : ℕ) → selected ≡ some x → contains taken x ≡ false)
      → select_any port_is_free random_free_port taken start selected ≡ ok p
      → contains taken p ≡ false
  unfolding select_any
  select_any_avoids taken start none {p} h e =
      ground
        (arith, find_port-available port_is_free random_free_port (2 ^ 16) taken start {q = p} e)
  select_any_avoids taken start (some x) {p} h e = ground (arith, h x refl, ok-injective e)

  -- A process that had no port does not get one that another process is configured for or runs on, unless
  -- its own configuration leaves the port to the operating system or a variable names it.
  pub set_active_port_avoids :
      (config : OddBoxConfig) (proc : FullyResolved) (p : ℕ) (after : OddBoxConfig)
      → proc.active_port ≡ none
      → proc.port ≢ some 0
      → port_variable (or_empty proc.env_vars) ≡ none
      → set_active_port port_is_free random_free_port config proc ≡ ok (p, after)
      → ¬ ClaimedByOther proc.proc_id p (or_empty config.hosted_process)
  unfolding set_active_port keep_current select_preferred busy_ports
  set_active_port_avoids config proc p after no_active no_random no_variable e c =
      let taken = others_ports config proc in
      let preferred = select_preferred port_is_free random_free_port taken proc none in
      let started = rw (no_active, keep_current) at e in
      let (chosen, found, result) =
        bind-eq-ok
          (select_any port_is_free random_free_port taken config.port_range_start preferred) _
          started in
      let same : chosen ≡ p = ap (λ r. r.0) (ok-injective result) in
      let avoided =
        select_any_avoids taken config.port_range_start preferred
          (λ x q. preferred_avoids taken proc.port no_random (
            subst (λ v. preferred_of port_is_free random_free_port taken proc.port v none ≡ some x)
              no_variable q))
          found in
      let claimed = ClaimedByOther-contains proc.proc_id p c in
      ground (arith, same, avoided, claimed, subst (λ n. contains taken n ≡ false) same avoided)

  -- A process that was given a port before keeps it although another process claims it now, when it has
  -- neither a port nor a variable of its own: the port is returned, and the process is marked with it.
  pub set_active_port_taken :
      (config : OddBoxConfig) (proc : FullyResolved) (p : ℕ)
      → proc.active_port ≡ some p
      → proc.port ≡ none
      → port_variable (or_empty proc.env_vars) ≡ none
      → ClaimedByOther proc.proc_id p (or_empty config.hosted_process)
      → set_active_port port_is_free random_free_port config proc
        ≡ ok (p, mark config proc.proc_id p)
  unfolding set_active_port keep_current select_preferred select_any select_variable busy_ports
  set_active_port_taken config proc p active no_port no_variable c =
      let taken = ClaimedByOther-contains proc.proc_id p c in
      rw (active, taken, no_port, no_variable)
