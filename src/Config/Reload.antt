-- ===== src/Config/Reload.antt =====
-- `reload_from_disk` of src/configuration/reload.rs, from a new configuration that differs from the active one: which
-- of the tasks of processes are marked for removal, which processes are started, and what the map of states becomes.
-- The reading of the file and its parsing are input; the wait for the marked tasks to end is taken to be over, and what
-- a reload that fails has done before is left out.
pub mod Covered
use odd_box.Base.{
  ◌>>=◌, ◌&&◌, ◌||◌, ◌∷◌, ◌==◌, [], ok, err, panic, stalled, some, none, true, false, not,
  if◌then◌else◌, bytes_eq, insert, Bool, Bytes, Exec, List, Option, ℕ,
}
use odd_box.Config.Resolve.{resolve_process_configuration, Directories, ResolveError}
use odd_box.Config.Sites.{
  any, hint_eq, or_empty, standard, dotnet, DirServer, EnvVar, FullyResolved, Hint,
  InProcessSiteConfig, LogFormat, LogLevel, OddBoxConfig, RemoteSiteConfig, trace_level,
  debug_level, info_level, warn_level, error_level,
}
use odd_box.Process.Messages.{ProcState, remote, dir_server}

-- An entry of `PROC_THREAD_MAP`.
pub record HostThread : Type 0 where
  pub config : FullyResolved
  pub marked_for_removal : Bool

abbrev pub option_eq {ℓ} : {A : Type ℓ} → (A → A → Bool) → Option A → Option A → Bool
option_eq eq none none = true
option_eq eq (some a) (some b) = eq a b
option_eq eq _ _ = false

unfoldable pub list_eq {ℓ} : {A : Type ℓ} → (A → A → Bool) → List A → List A → Bool
list_eq eq [] [] = true
list_eq eq (x ∷ xs) (y ∷ ys) = eq x y && list_eq eq xs ys
list_eq eq _ _ = false

abbrev pub bool_eq : Bool → Bool → Bool
bool_eq true b = b
bool_eq false b = not b

abbrev pub format_eq : LogFormat → LogFormat → Bool
format_eq standard standard = true
format_eq dotnet dotnet = true
format_eq _ _ = false

abbrev pub level_eq : LogLevel → LogLevel → Bool
level_eq trace_level trace_level = true
level_eq debug_level debug_level = true
level_eq info_level info_level = true
level_eq warn_level warn_level = true
level_eq error_level error_level = true
level_eq _ _ = false

abbrev pub env_var_eq : EnvVar → EnvVar → Bool
env_var_eq v w = bytes_eq v.key w.key && bytes_eq v.value w.value

-- `==` on resolved processes, field by field.
unfoldable pub resolved_eq : FullyResolved → FullyResolved → Bool
resolved_eq x y =
    bool_eq x.excluded_from_start_all y.excluded_from_start_all
    && (x.proc_id == y.proc_id)
    && option_eq ◌==◌ x.active_port y.active_port
    && option_eq bool_eq x.terminate_tls y.terminate_tls
    && option_eq (list_eq hint_eq) x.hints y.hints
    && bytes_eq x.host_name y.host_name
    && option_eq bytes_eq x.dir y.dir
    && bytes_eq x.bin y.bin
    && option_eq (list_eq bytes_eq) x.args y.args
    && option_eq (list_eq env_var_eq) x.env_vars y.env_vars
    && option_eq format_eq x.log_format y.log_format
    && option_eq level_eq x.log_level y.log_level
    && option_eq bool_eq x.auto_start y.auto_start
    && option_eq ◌==◌ x.port y.port
    && option_eq bool_eq x.https y.https
    && option_eq bool_eq x.capture_subdomains y.capture_subdomains
    && option_eq bool_eq x.forward_subdomains y.forward_subdomains

abbrev pub runs_as : Bytes → HostThread → Bool
runs_as n t = bytes_eq t.config.host_name n

abbrev pub is_named : Bytes → InProcessSiteConfig → Bool
is_named n x = bytes_eq x.host_name n

unfoldable pub find_thread : Bytes → List HostThread → Option HostThread
find_thread n [] = none
find_thread n (t ∷ ts) = if runs_as n t then some t else find_thread n ts

-- A process that runs keeps its identifier and its port.
abbrev pub take_over : InProcessSiteConfig → HostThread → InProcessSiteConfig
take_over x t = record x { proc_id = t.config.proc_id; active_port = t.config.active_port }

-- A process of the new configuration as it is written, and whether it has to be started.
abbrev pub compare_process :
    InProcessSiteConfig
    → HostThread
    → Exec ResolveError FullyResolved
    → Exec ResolveError (InProcessSiteConfig × Bool)
compare_process x t (ok r) =
    let r' = record r { proc_id = t.config.proc_id; active_port = t.config.active_port } in
    ok (take_over x t, not (resolved_eq t.config r'))
compare_process x t (err e) = err e
compare_process x t panic = panic
compare_process x t stalled = stalled

module _ (os : Directories) (root_dir : Option Bytes) where
  abbrev pub filter_process :
      InProcessSiteConfig → Option HostThread → Exec ResolveError (InProcessSiteConfig × Bool)
  filter_process x none = ok (x, true)
  filter_process x (some t) = compare_process x t (resolve_process_configuration os root_dir x)

  -- All processes as they are now configured, and those of them that have to be started.
  unfoldable pub filter_processes :
      List HostThread
      → List InProcessSiteConfig
      → Exec ResolveError (List InProcessSiteConfig × List InProcessSiteConfig)
  filter_processes threads [] = ok ([], [])
  filter_processes threads (x ∷ xs) = filter_process x (find_thread x.host_name threads) >>= λ p.
      filter_processes threads xs >>= λ rest.
      ok (p.0 ∷ rest.0, if p.1 then p.0 ∷ rest.1 else rest.1)

  unfoldable pub resolve_all : List InProcessSiteConfig → Exec ResolveError (List FullyResolved)
  resolve_all [] = ok []
  resolve_all (x ∷ xs) = do
    r ← resolve_process_configuration os root_dir x
    rs ← resolve_all xs
    ok (r ∷ rs)

-- The loop that marks: a process that changed, and one that is no longer configured.
unfoldable pub mark_threads :
    List InProcessSiteConfig → List InProcessSiteConfig → List HostThread → List HostThread
mark_threads modified configured [] = []
mark_threads modified configured (t ∷ ts) =
    let rest = mark_threads modified configured ts in
    if any (is_named t.config.host_name) modified
      || not (any (is_named t.config.host_name) configured)
    then record t { marked_for_removal = true } ∷ rest
    else t ∷ rest

-- The tasks that are left when the marked ones have ended.
unfoldable pub remaining : List HostThread → List HostThread
remaining [] = []
remaining (t ∷ ts) = let rest = remaining ts in if t.marked_for_removal then rest else t ∷ rest

abbrev pub retains : OddBoxConfig → Bytes → ProcState → Bool
retains cfg n remote =
    any (λ (x : RemoteSiteConfig). bytes_eq x.host_name n) (or_empty cfg.remote_target)
retains cfg n dir_server = any (λ (x : DirServer). bytes_eq x.host_name n) (or_empty cfg.dir_server)
retains cfg n _ = any (is_named n) (or_empty cfg.hosted_process)

unfoldable pub retain_statuses : OddBoxConfig → List (Bytes × ProcState) → List (Bytes × ProcState)
retain_statuses cfg [] = []
retain_statuses cfg ((n, s) ∷ m) =
    let rest = retain_statuses cfg m in if retains cfg n s then (n, s) ∷ rest else rest

unfoldable pub list_sites {ℓ} :
    {A : Type ℓ}
    → (A → Bytes)
    → ProcState
    → List A
    → List (Bytes × ProcState)
    → List (Bytes × ProcState)
list_sites name s [] m = m
list_sites name s (x ∷ xs) m = list_sites name s xs (insert (name x) s m)

-- What a reload leaves: the configuration, the tasks that go on, the processes that are started, and the map of states.
pub record Reloaded : Type 0 where
  pub config : OddBoxConfig
  pub threads : List HostThread
  pub spawned : List FullyResolved
  pub statuses : List (Bytes × ProcState)

unfoldable pub reload_changed :
    Directories
    → OddBoxConfig
    → List HostThread
    → List (Bytes × ProcState)
    → Exec ResolveError Reloaded
reload_changed os cfg threads statuses = do
  (all, modified) ← filter_processes os cfg.root_dir threads (or_empty cfg.hosted_process)
  spawned ← resolve_all os cfg.root_dir modified
  let new_configuration = record cfg { hosted_process = some all }
  ok (record {
    config = new_configuration;
    threads = remaining (mark_threads modified all threads);
    spawned = spawned;
    statuses =
        list_sites (λ (x : DirServer). x.host_name) dir_server (or_empty cfg.dir_server)
          (list_sites (λ (x : RemoteSiteConfig). x.host_name) remote (or_empty cfg.remote_target)
            (retain_statuses new_configuration statuses));
  })
