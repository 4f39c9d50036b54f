-- ===== src/Config/Ports.antt =====
-- src/configuration/mod.rs: `busy_ports` and `set_active_port`, by which a hosted process gets the port that it
-- is started on. What the operating system says of a
-- port is a parameter.
pub mod Claims
pub mod Search
pub mod Choice
use odd_box.Config.Sites.{or_empty, EnvVar, FullyResolved, InProcessSiteConfig, OddBoxConfig}
use odd_box.Base.{
  ltb, zero, ◌>>=◌, ok, ◌%◌, ◌||◌, [], bytes_eq, eq_ignore_case, inl, inr, parse_unsigned, stalled,
  ◌+◌, ◌==◌, ◌^◌, ◌∷◌, Exec, false, if◌then◌else◌, none, some, ◌++◌, ◌/◌, ◌⊎◌, Bool, Option, suc,
  Bytes, List, ℕ,
}
use odd_box.Http1.Message.{codes, or_else}

-- The `bail!` at the end, which is never reached: `select_any` always selects a port.
pub data PortError : Type 0 where
  no_port_found : PortError

abbrev pub claim : ℕ → Option ℕ → List (ℕ × ℕ)
claim id none = []
claim id (some p) = (id, p) ∷ []

unfoldable pub ports_of_sites : List InProcessSiteConfig → List (ℕ × ℕ)
ports_of_sites [] = []
ports_of_sites (x ∷ xs) =
    claim x.proc_id x.port ++ claim x.proc_id x.active_port ++ ports_of_sites xs

-- A port that a site is configured for is busy, and so is one that it runs on.
unfoldable pub busy_ports : OddBoxConfig → List (ℕ × ℕ)
busy_ports config = ports_of_sites (or_empty config.hosted_process)

-- The busy ports of the other processes.
unfoldable pub taken_by_others : ℕ → List (ℕ × ℕ) → List ℕ
taken_by_others id [] = []
taken_by_others id ((owner, p) ∷ xs) =
    let others = taken_by_others id xs in if owner == id then others else p ∷ others

unfoldable pub contains : List ℕ → ℕ → Bool
contains [] p = false
contains (x ∷ xs) p = (x == p) || contains xs p

-- `u16::to_string`
digits : ℕ → ℕ → Bytes → Bytes
digits zero n acc = acc
digits (suc fuel) n acc =
    let front = digits fuel (n / 10) ((b'0' + n % 10) ∷ acc) in
    if ltb n 10 then (b'0' + n) ∷ acc else front

unfoldable pub to_decimal : ℕ → Bytes
unfolding digits
to_decimal n = digits 5 n []

unfoldable pub contains_text : List ℕ → Bytes → Bool
contains_text [] value = false
contains_text (x ∷ xs) value = bytes_eq (to_decimal x) value || contains_text xs value

-- The first variable named `port`, in any case.
unfoldable pub port_variable : List EnvVar → Option Bytes
port_variable [] = none
port_variable (v ∷ vs) =
    let later = port_variable vs in
    if eq_ignore_case v.key (codes "port") then some v.value else later

-- The variable's port, unless another process has it; `selected` stays where it is no port.
unfoldable pub select_variable : List ℕ → Option Bytes → Option ℕ → Option ℕ
select_variable taken none selected = selected
select_variable taken (some value) selected =
    if contains_text taken value
    then selected
    else elim (parse_unsigned (2 ^ 16) value) [ none ↦ selected | some p ↦ some p ]

-- The first site with the identifier is marked as running on the port.
unfoldable pub mark_active : ℕ → ℕ → List InProcessSiteConfig → List InProcessSiteConfig
mark_active id p [] = []
mark_active id p (x ∷ xs) =
    let others = mark_active id p xs in
    if x.proc_id == id then record x { active_port = some p } ∷ xs else x ∷ others

abbrev pub mark_sites :
    ℕ → ℕ → Option (List InProcessSiteConfig) → Option (List InProcessSiteConfig)
mark_sites id p none = none
mark_sites id p (some sites) = some (mark_active id p sites)

abbrev pub mark : OddBoxConfig → ℕ → ℕ → OddBoxConfig
mark config id p = record config { hosted_process = mark_sites id p config.hosted_process }

module _ (port_is_free : ℕ → Bool) (random_free_port : Option ℕ) where
  -- The port that the process had: `inl` is returned at once, `inr` is what goes on being selected.
  unfoldable pub keep_current : List ℕ → Option ℕ → ℕ ⊎ Option ℕ
  keep_current taken none = inr none
  keep_current taken (some p) =
      if contains taken p then inr (some p) else if port_is_free p then inl p else inr none

  abbrev pub preferred_of : List ℕ → Option ℕ → Option Bytes → Option ℕ → Option ℕ
  preferred_of taken (some p) variable selected =
      if p == 0 then random_free_port else if contains taken p then selected else some p
  preferred_of taken none variable selected = select_variable taken variable selected

  -- The port that the process prefers, from its configuration or from its variables.
  unfoldable pub select_preferred : List ℕ → FullyResolved → Option ℕ → Option ℕ
  select_preferred taken proc selected =
      preferred_of taken proc.port (port_variable (or_empty proc.env_vars)) selected

  -- The loop over the ports from the start of the range. A `u16` wraps around.
  unfoldable pub find_port : ℕ → List ℕ → ℕ → Exec PortError ℕ
  find_port zero taken p = stalled
  find_port (suc fuel) taken p =
      let later = find_port fuel taken ((p + 1) % 2 ^ 16) in
      if contains taken p then later else if port_is_free p then ok p else later

  -- Without a selection the first available port; every port is tried once before one is tried again.
  unfoldable pub select_any : List ℕ → ℕ → Option ℕ → Exec PortError ℕ
  select_any taken start none = find_port (2 ^ 16) taken start
  select_any taken start (some p) = ok p

  abbrev pub choose :
      OddBoxConfig → FullyResolved → List ℕ → ℕ ⊎ Option ℕ → Exec PortError (ℕ × OddBoxConfig)
  choose config proc taken (inl p) = ok (p, config)
  choose config proc taken (inr selected) = do
    p ← select_any taken config.port_range_start (select_preferred taken proc selected)
    ok (p, mark config proc.proc_id p)

  unfoldable pub set_active_port : OddBoxConfig → FullyResolved → Exec PortError (ℕ × OddBoxConfig)
  set_active_port config proc =
      let taken = taken_by_others proc.proc_id (busy_ports config) in
      choose config proc taken (keep_current taken proc.active_port)
