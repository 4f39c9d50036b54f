-- ===== src/Config/Reload/Covered.antt =====
-- After a reload each configured process is kept once: its task goes on, or it is started anew.
use odd_box.Base.{
  ◌&&◌, ◌||◌, ◌∷◌, [], ok, err, panic, stalled, some, none, true, false, not, if◌then◌else◌, refl,
  sym, ap, ◌∙◌, ◌≡◌, Bool-cases, inl, inr, arith, bind-eq-ok, ok-injective, bytes_eq, bytes_eq_iff,
  subst, Bool, Bytes, Exec, List, Option,
}
use odd_box.Config.Reload.{
  compare_process, filter_process, filter_processes, find_thread, is_named, mark_threads,
  reload_changed, remaining, resolve_all, runs_as, HostThread, Reloaded,
}
use odd_box.Config.Resolve.{
  no_home_dir, no_cfg_dir, resolve_process_configuration, resolve_root_dir, resolved_with, or_error,
  Directories, ResolveError,
}
use odd_box.Config.Sites.{any, or_empty, FullyResolved, InProcessSiteConfig, OddBoxConfig}
use odd_box.Process.Messages.{ProcState}

abbrev pub is_spawned_as : Bytes → FullyResolved → Bool
is_spawned_as n p = bytes_eq p.host_name n

abbrev pub is_marked : HostThread → Bool
is_marked t = t.marked_for_removal

module _ (os : Directories) (root_dir : Option Bytes) where
  resolve-host_name :
      (x : InProcessSiteConfig) (r : FullyResolved)
      → resolve_process_configuration os root_dir x ≡ ok r
      → r.host_name ≡ x.host_name
  unfolding resolve_process_configuration resolved_with
  resolve-host_name x r e =
      let (home, found, e') = bind-eq-ok (or_error no_home_dir os.home_dir) _ e in
      let (cfg, found', e'') = bind-eq-ok (or_error no_cfg_dir os.cfg_dir) _ e' in
      let (root, found'', e''') = bind-eq-ok (resolve_root_dir os home cfg root_dir) _ e'' in
      sym (ap (λ (p : FullyResolved). p.host_name) (ok-injective e'''))

  resolve_all-spawned :
      (n : Bytes) (xs : List InProcessSiteConfig) (rs : List FullyResolved)
      → resolve_all os root_dir xs ≡ ok rs
      → any (is_spawned_as n) rs ≡ any (is_named n) xs
  unfolding resolve_all any
  resolve_all-spawned n [] rs e = ap (any (is_spawned_as n)) (sym (ok-injective e))
  resolve_all-spawned n (x ∷ xs) rs e =
      let (r, first, e') = bind-eq-ok (resolve_process_configuration os root_dir x) _ e in
      let (rest, later, e'') = bind-eq-ok (resolve_all os root_dir xs) _ e' in
      ap (any (is_spawned_as n)) (sym (ok-injective e''))
      ∙ (λ i. bytes_eq (resolve-host_name x r first i) n || resolve_all-spawned n xs rest later i)

  compare_process-ok :
      (x : InProcessSiteConfig) (t : HostThread) (m : Exec ResolveError FullyResolved)
      (p : InProcessSiteConfig × Bool)
      → compare_process x t m ≡ ok p
      → p.0.host_name ≡ x.host_name
  compare_process-ok x t (ok r) p e =
      sym (ap (λ (q : InProcessSiteConfig × Bool). q.0.host_name) (ok-injective e))
  compare_process-ok x t (err a) p e = absurd (cc)
  compare_process-ok x t panic p e = absurd (cc)
  compare_process-ok x t stalled p e = absurd (cc)

  -- The name stays, and a process that runs nowhere is to be started.
  filter_process-ok :
      (x : InProcessSiteConfig) (found : Option HostThread) (p : InProcessSiteConfig × Bool)
      → filter_process os root_dir x found ≡ ok p
      → (p.0.host_name ≡ x.host_name) × (found ≡ none → p.1 ≡ true)
  filter_process-ok x none p e = (
    sym (ap (λ (q : InProcessSiteConfig × Bool). q.0.host_name) (ok-injective e)),
    λ _. sym (ap (λ (q : InProcessSiteConfig × Bool). q.1) (ok-injective e)),
  )
  filter_process-ok x (some t) p e = (compare_process-ok x t _ p e, λ no. absurd (cc))

find_thread-any :
    (n : Bytes) (ts : List HostThread) → any (runs_as n) ts ≡ false → find_thread n ts ≡ none
unfolding find_thread any
find_thread-any n [] h = refl
find_thread-any n (t ∷ ts) h = ground (arith, find_thread-any n ts)

-- What is known of the names of all processes, of those to be started, and of those that run.
record IsSplit (n : Bytes) (threads : List HostThread) (xs all modified : List InProcessSiteConfig)
    : Type 0 where
  same : any (is_named n) all ≡ any (is_named n) xs
  part : any (is_named n) modified ≡ true → any (is_named n) xs ≡ true
  covers :
      any (is_named n) xs ≡ true
      → any (is_named n) modified ≡ false
      → any (runs_as n) threads ≡ true

module _ (n : Bytes) (threads : List HostThread) where
  -- A process that keeps running runs under its name.
  runs_alone :
      (x : InProcessSiteConfig)
      → (find_thread x.host_name threads ≡ none → false ≡ true)
      → bytes_eq x.host_name n ≡ true
      → any (runs_as n) threads ≡ true
  runs_alone x alone named = elim (Bool-cases (any (runs_as n) threads)) [
    | inl runs ↦ runs
    | inr silent ↦
        let x_is_n = (bytes_eq_iff x.host_name n).0 named in
        let never =
          alone (ap (λ c. find_thread c threads) x_is_n ∙ find_thread-any n threads silent) in
        absurd (cc)
  ]

  IsSplit-step :
      (x y : InProcessSiteConfig) (starts : Bool) (xs all modified : List InProcessSiteConfig)
      → y.host_name ≡ x.host_name
      → (find_thread x.host_name threads ≡ none → starts ≡ true)
      → IsSplit n threads xs all modified
      → IsSplit n threads (x ∷ xs) (y ∷ all) (if starts then y ∷ modified else modified)
  unfolding any
  IsSplit-step x y true xs all modified named alone s =
      let h : bytes_eq y.host_name n ≡ bytes_eq x.host_name n = ap (λ c. bytes_eq c n) named in
      record {
        same = λ i. h i || s.same i;
        part = λ e. ground (arith, h, s.part);
        covers = λ e f. ground (arith, h, s.covers);
      }
  IsSplit-step x y false xs all modified named alone s =
      let h : bytes_eq y.host_name n ≡ bytes_eq x.host_name n = ap (λ c. bytes_eq c n) named in
      record {
        same = λ i. h i || s.same i;
        part = λ e. ground (arith, s.part);
        covers = λ e f. ground (arith, s.covers, runs_alone x alone);
      }

  filter_processes-IsSplit :
      (os : Directories) (root_dir : Option Bytes) (xs all modified : List InProcessSiteConfig)
      → filter_processes os root_dir threads xs ≡ ok (all, modified)
      → IsSplit n threads xs all modified
  unfolding filter_processes any
  filter_processes-IsSplit os root_dir [] all modified e =
      let both = ok-injective e in
      subst
        (λ (p : List InProcessSiteConfig × List InProcessSiteConfig). IsSplit n threads [] p.0 p.1)
        both (record { same = refl; part = λ h. absurd (cc); covers = λ h. absurd (cc) })
  filter_processes-IsSplit os root_dir (x ∷ xs) all modified e =
      let (p, first, e') =
        bind-eq-ok (filter_process os root_dir x (find_thread x.host_name threads)) _ e in
      let (rest, later, e'') = bind-eq-ok (filter_processes os root_dir threads xs) _ e' in
      let (named, alone) =
        filter_process-ok os root_dir x (find_thread x.host_name threads) p first in
      subst
        (λ (q : List InProcessSiteConfig × List InProcessSiteConfig).
          IsSplit n threads (x ∷ xs) q.0 q.1)
        (ok-injective e'')
        (IsSplit-step x p.0 p.1 xs rest.0 rest.1 named alone
          (filter_processes-IsSplit os root_dir xs rest.0 rest.1 later))

either_false : (a b : Bool) → (a || b) ≡ false → (a ≡ false) × (b ≡ false)
either_false false b h = (refl, h)
either_false true b h = absurd (cc)

-- A test on the tasks of one name, where that name is the one looked for.
by_its_name :
    (k n : Bytes) (xs : List InProcessSiteConfig)
    → bytes_eq k n ≡ true
    → any (is_named k) xs ≡ any (is_named n) xs
by_its_name k n xs e = ap (λ c. any (is_named c) xs) ((bytes_eq_iff k n).0 e)

marked_out :
    (runs others a b c d : Bool)
    → (runs ≡ true → a ≡ c)
    → (runs ≡ true → b ≡ d)
    → (a || not b) ≡ true
    → (others && (not c && d)) ≡ ((runs || others) && (not c && d))
marked_out false others a b c d same same' out = refl
marked_out true others a b c d same same' out = ground (arith, same, same')

left_in :
    (runs others a b c d : Bool)
    → (runs ≡ true → a ≡ c)
    → (runs ≡ true → b ≡ d)
    → (a || not b) ≡ false
    → (runs || (others && (not c && d))) ≡ ((runs || others) && (not c && d))
left_in false others a b c d same same' out = refl
left_in true others a b c d same same' out = ground (arith, same, same')

remaining-mark_threads :
    (n : Bytes) (modified configured : List InProcessSiteConfig) (ts : List HostThread)
    → any is_marked ts ≡ false
    → any (runs_as n) (remaining (mark_threads modified configured ts))
      ≡ (any (runs_as n) ts && (not (any (is_named n) modified) && any (is_named n) configured))
unfolding remaining mark_threads any
remaining-mark_threads n modified configured [] h = refl
remaining-mark_threads n modified configured (t ∷ ts) h =
    let k = t.config.host_name in
    let (own, others) = either_false t.marked_for_removal (any is_marked ts) h in
    let rest = remaining-mark_threads n modified configured ts others in
    let same = by_its_name k n modified in
    let same' = by_its_name k n configured in
    elim (Bool-cases (any (is_named k) modified || not (any (is_named k) configured))) [
      | inl out ↦
          rw out (rest ∙ marked_out (runs_as n t) (any (runs_as n) ts) _ _ _ _ same same' out)
      | inr kept ↦
          rw (kept, own)
            (ap (λ b. runs_as n t || b) rest
              ∙ left_in (runs_as n t) (any (runs_as n) ts) _ _ _ _ same same' kept)
    ]

-- The task goes on or is started, and not both, exactly if the name is configured.
once :
    (configured modified running : Bool)
    → (modified ≡ true → configured ≡ true)
    → (configured ≡ true → modified ≡ false → running ≡ true)
    → (((running && (not modified && configured)) || modified) ≡ configured)
      × (((running && (not modified && configured)) && modified) ≡ false)
once configured true running part covers = ground (arith, part)
once true false running part covers = ground (arith, covers)
once false false running part covers = ground arith

-- After a reload, if no task was marked before it: under a host name that the new configuration has for a process,
-- either a task goes on that ran under it, or a process is started, and never both; under any other name neither.
pub reload_changed-once :
    (os : Directories) (cfg : OddBoxConfig) (threads : List HostThread)
    (statuses : List (Bytes × ProcState)) (r : Reloaded) (n : Bytes)
    → any is_marked threads ≡ false
    → reload_changed os cfg threads statuses ≡ ok r
    → ((any (runs_as n) r.threads || any (is_spawned_as n) r.spawned)
        ≡ any (is_named n) (or_empty cfg.hosted_process))
      × ((any (runs_as n) r.threads && any (is_spawned_as n) r.spawned) ≡ false)
unfolding reload_changed
reload_changed-once os cfg threads statuses r n unmarked e =
    let xs = or_empty cfg.hosted_process in
    let (p, filtered, e') = bind-eq-ok (filter_processes os cfg.root_dir threads xs) _ e in
    let (spawned, resolved, e'') = bind-eq-ok (resolve_all os cfg.root_dir p.1) _ e' in
    let split = filter_processes-IsSplit n threads os cfg.root_dir xs p.0 p.1 filtered in
    let left : any (runs_as n) r.threads
        ≡ (any (runs_as n) threads && (not (any (is_named n) p.1) && any (is_named n) xs)) =
      ap (λ (x : Reloaded). any (runs_as n) x.threads) (sym (ok-injective e''))
      ∙ remaining-mark_threads n p.1 p.0 threads unmarked
      ∙ ap (λ c. any (runs_as n) threads && (not (any (is_named n) p.1) && c)) split.same in
    let started : any (is_spawned_as n) r.spawned ≡ any (is_named n) p.1 =
      ap (λ (x : Reloaded). any (is_spawned_as n) x.spawned) (sym (ok-injective e''))
      ∙ resolve_all-spawned os cfg.root_dir n p.1 spawned resolved in
    rw (left, started)
      (once (any (is_named n) xs) (any (is_named n) p.1) (any (runs_as n) threads) split.part
        split.covers)
