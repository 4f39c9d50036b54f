-- ===== src/Tests/Process.antt =====
-- The task of the blog: it is asked to start, is started on the first port that is free, runs, and is stopped.
use odd_box.Base.{[], ◌∷◌, ◌≡◌, ok, none, some, true, false, refl, ltb, Bool, bytes_eq, lookup, ℕ}
use odd_box.Config.Ports.{
  busy_ports, contains, find_port, keep_current, mark, port_variable, ports_of_sites, select_any,
  select_preferred, select_variable, set_active_port, taken_by_others,
}
use odd_box.Config.Sites.{any, FullyResolved}
use odd_box.Http1.Message.{codes}
use odd_box.Process.Messages.{running, start, stop, start_all}
use odd_box.Process.Status.{Statuses}
use odd_box.Process.Host.{
  begin, between, with_child, receive, turn, first_label, is_acceptable, HostState, Meets,
}
use odd_box.Process.Host.Commands.{asks, asks_none, run, run-stop, IsOff, asks_to_stop}
use odd_box.Process.Host.Life.{status_of, IsConsistent, IsSettled}
use odd_box.Process.Host.Reachable.{here, next, turned, Reach-IsConsistent}
use odd_box.Process.Host.Starting.{turn-start}
use odd_box.Tests.Fixtures.{blog_resolved, config}

abbrev is_free : ℕ → Bool
is_free p = ltb 4202 p

abbrev quiet : Meets
quiet = record {
  exit = false;
  messages = [];
  port_is_free = is_free;
  random_free_port = none;
  bin_exists = true;
  spawns = true;
  child_ended = false;
  live_id = some 2;
  live_log_format = none;
  live_log_level = none;
}

abbrev asked : Meets
asked = record quiet { messages = stop (codes "shop.se") ∷ start (codes "blog") ∷ [] }

abbrev stopped_then : Meets
stopped_then = record quiet { messages = start_all ∷ stop (codes "blog.se") ∷ [] }

-- All are started, which this process is excluded from.
abbrev asked_all : Meets
asked_all = record quiet { messages = start_all ∷ start (codes "all") ∷ [] }

abbrev no_statuses : Statuses
no_statuses = record { map = []; events = [] }

abbrev excluded_blog : FullyResolved
excluded_blog = record blog_resolved { excluded_from_start_all = true; auto_start = some false }

abbrev waiting_blog : HostState
waiting_blog = record {
  statuses = no_statuses;
  config = config;
  thread = none;
  proc = excluded_blog;
  enabled = false;
  missing_bin = false;
}

abbrev running_blog : HostState
running_blog = record waiting_blog {
  enabled = true;
  proc = record excluded_blog { active_port = some 4203 };
}

blog_gets : set_active_port is_free none config excluded_blog ≡ ok (4203, mark config 2 4203)
unfolding set_active_port keep_current select_any select_preferred select_variable port_variable
    find_port contains taken_by_others busy_ports ports_of_sites
blog_gets = refl

Reach-IsConsistent_example :
    IsSettled (turn asked (begin no_statuses config excluded_blog))
    × IsConsistent (turn quiet (turn asked (begin no_statuses config excluded_blog)))
unfolding lookup
Reach-IsConsistent_example =
    Reach-IsConsistent no_statuses config excluded_blog quiet (λ e. cc) (next here (turned asked))

turn-start_example :
    (h' : HostState) × (turn asked (between, waiting_blog) ≡ (with_child, h'))
    × (h'.enabled ≡ true)
    × (h'.proc.active_port ≡ some 4203)
    × (h'.config ≡ mark config 2 4203)
    × (status_of h' ≡ some running)
unfolding receive asks is_acceptable bytes_eq first_label
turn-start_example =
    turn-start asked waiting_blog (stop (codes "shop.se") ∷ []) (start (codes "blog")) false 4203
      (mark config 2 4203) refl refl refl refl refl blog_gets refl refl

run-stop_example :
    IsOff true (codes "blog.se") (run (stopped_then ∷ asked_all ∷ []) (with_child, running_blog))
unfolding receive asks asks_none asks_to_stop any is_acceptable bytes_eq first_label
run-stop_example =
    run-stop stopped_then running_blog (start_all ∷ []) (stop (codes "blog.se")) true
      (asked_all ∷ []) refl refl refl refl refl refl refl
