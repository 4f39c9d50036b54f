-- ===== src/Tests/Reload.antt =====
-- A reload by which the blog is no longer excluded from starting with all: it is started anew on its port.
use odd_box.Base.{◌&&◌, ◌||◌, ◌∷◌, ◌≡◌, [], ok, some, true, false, refl, bytes_eq}
use odd_box.Config.Reload.{
  filter_processes, find_thread, list_sites, mark_threads, reload_changed, remaining, resolve_all,
  resolved_eq, retain_statuses, runs_as, HostThread, Reloaded,
}
use odd_box.Config.Reload.Covered.{is_spawned_as, reload_changed-once}
use odd_box.Config.Resolve.{
  resolve_process_configuration, resolve_root_dir, resolved_with, with_vars, Directories,
}
use odd_box.Config.Sites.{any, FullyResolved, InProcessSiteConfig, OddBoxConfig}
use odd_box.Http1.Message.{codes}
use odd_box.Tests.Fixtures.{blog, blog_resolved, config}

abbrev some_directories : Directories
some_directories = record {
  home_dir = some (codes "/root");
  cfg_dir = some (codes "/etc");
  current_dir = some (codes "/srv");
  canonicalize = λ path. some path;
}

abbrev blog_thread : HostThread
blog_thread = record {
  config = record blog_resolved { excluded_from_start_all = true; active_port = some 4203 };
  marked_for_removal = false;
}

abbrev blog_anew : InProcessSiteConfig
blog_anew = record blog { active_port = some 4203 }

abbrev blog_config : OddBoxConfig
blog_config = record config { hosted_process = some (blog ∷ []) }

abbrev blog_started : FullyResolved
blog_started = resolved_with (with_vars (codes "/srv") (codes "/etc") (codes "/root")) blog_anew

abbrev reloaded : Reloaded
reloaded = record {
  config = record blog_config { hosted_process = some (blog_anew ∷ []) };
  threads = [];
  spawned = blog_started ∷ [];
  statuses = [];
}

blog_reloaded : reload_changed some_directories blog_config (blog_thread ∷ []) [] ≡ ok reloaded
unfolding reload_changed filter_processes find_thread resolve_process_configuration resolve_root_dir
    resolved_with resolved_eq remaining mark_threads any retain_statuses list_sites resolve_all
    bytes_eq
blog_reloaded = refl

reload_changed-once_example :
    ((any (runs_as (codes "blog.se")) []
        || any (is_spawned_as (codes "blog.se")) (blog_started ∷ []))
      ≡ true)
    × ((any (runs_as (codes "blog.se")) []
          && any (is_spawned_as (codes "blog.se")) (blog_started ∷ []))
        ≡ false)
unfolding any bytes_eq resolved_with
reload_changed-once_example =
    reload_changed-once some_directories blog_config (blog_thread ∷ []) [] reloaded
      (codes "blog.se") refl blog_reloaded
