-- ===== src/Tests/Config.antt =====
-- Two processes that want ports, where the operating system has the first two ports of the range in use.
use odd_box.Base.{refl, arith, ok, [], ltb, ◌≡◌, Bool, none, some, ◌∷◌, ℕ, List, Option}
use odd_box.Config.Sites.{or_empty, FullyResolved, InProcessSiteConfig}
use odd_box.Tests.Fixtures.{shop, blog, config, blog_resolved}
use odd_box.Config.Ports.{
  find_port, ports_of_sites, busy_ports, select_variable, select_preferred, taken_by_others,
  contains, select_any, keep_current, port_variable, mark, set_active_port,
}
use odd_box.Config.Ports.Claims.{configured, ClaimedByOther}
use odd_box.Config.Ports.Choice.{
  set_active_port-IsFirst, available-IsUnclaimed, IsFirstUnclaimed, IsMarked, IsUnclaimed,
  set_active_port_taken, set_active_port_avoids,
}

abbrev blog_before : FullyResolved
blog_before = record blog_resolved { active_port = some 4202 }

abbrev is_free : ℕ → Bool
is_free p = ltb 4201 p

shop_claims : ClaimedByOther 2 4202 (shop ∷ blog ∷ [])
shop_claims = ClaimedByOther.first (λ e. omega (arith, e)) (configured refl)

blog_gets : set_active_port is_free none config blog_resolved ≡ ok (4203, mark config 2 4203)
unfolding set_active_port keep_current select_any select_preferred select_variable port_variable
    find_port contains taken_by_others busy_ports ports_of_sites
blog_gets = refl

late_port-IsUnclaimed : IsUnclaimed is_free none config blog_resolved 4300
unfolding contains taken_by_others busy_ports ports_of_sites
late_port-IsUnclaimed = available-IsUnclaimed is_free none config blog_resolved 4300 refl

set_active_port-IsFirst_example :
    (p : ℕ) × (sites : Option (List InProcessSiteConfig)) × (set_active_port is_free none config
        blog_resolved
      ≡ ok (p, record config { hosted_process = sites }))
    × IsMarked 2 p (shop ∷ blog ∷ []) (or_empty sites)
    × IsFirstUnclaimed is_free none config blog_resolved p
unfolding port_variable
set_active_port-IsFirst_example =
    set_active_port-IsFirst is_free none config blog_resolved 4300 refl refl refl (omega arith)
      (omega arith) late_port-IsUnclaimed

set_active_port_avoids_example : ¬ ClaimedByOther 2 4203 (shop ∷ blog ∷ [])
unfolding port_variable contains taken_by_others busy_ports ports_of_sites
set_active_port_avoids_example =
    set_active_port_avoids is_free none config blog_resolved 4203 (mark config 2 4203) refl
      (λ e. cc) refl blog_gets

set_active_port_taken_example :
    set_active_port is_free none config blog_before ≡ ok (4202, mark config 2 4202)
unfolding port_variable contains taken_by_others busy_ports ports_of_sites
set_active_port_taken_example =
    set_active_port_taken is_free none config blog_before 4202 refl refl refl shop_claims
