-- ===== src/Process/Host/Life.antt =====
-- Each turn of the task of a process keeps what the map of states and the entry of the process say of it.
use odd_box.Base.{
  some, none, true, false, if◌then◌else◌, both_branches, refl, sym, ap, ◌∙◌, ◌≡◌, ◌≢◌, Bool, Option,
  ℕ, Exec, ok, err, panic, stalled, bytes_eq_refl, lookup, lookup-insert, lookup-remove,
}
use odd_box.Config.Ports.{PortError}
use odd_box.Config.Sites.{OddBoxConfig}
use odd_box.Process.Messages.{ProcState, faulty, stopped, starting, stopping, running}
use odd_box.Process.Status.{update_status}
use odd_box.Process.Host.{
  HostState, HostTurn, Meets, ProcInfo, between, with_child, left, hung, set_status, forget_status,
  after_child, spawn, find_bin, note_child, with_port, choose_port, take_port, if_enabled,
  turn_between, end_child, go_on, turn_with_child, turn, is_marked, clear_pid, take_log,
  is_replaced,
}

-- The state under which the process is listed.
abbrev pub status_of : HostState → Option ProcState
status_of h = lookup h.proc.host_name h.statuses.map

-- The entry of the process names the port, and that there is a child.
abbrev pub IsNoted : Option ℕ → Option ProcInfo → Type 0
IsNoted port none = Unit
IsNoted port (some t) = (t.has_pid ≡ true) × (t.active_port ≡ port)

-- With a child the process is listed as running, has a port and is noted with it; without one it is not listed as
-- running.
unfoldable pub IsConsistent : HostTurn → Type 0
IsConsistent (with_child, h) =
    (status_of h ≡ some running)
    × ((p : ℕ) × (h.proc.active_port ≡ some p))
    × IsNoted h.proc.active_port h.thread
IsConsistent (between, h) = status_of h ≢ some running
IsConsistent (left, h) = status_of h ≢ some running
IsConsistent (hung, h) = status_of h ≢ some running

-- What holds whatever others make of the process's own state, as long as they do not list it as running: with a child
-- the process has a port and is noted with it; without one it is not listed as running.
unfoldable pub IsSettled : HostTurn → Type 0
IsSettled (with_child, h) =
    ((p : ℕ) × (h.proc.active_port ≡ some p)) × IsNoted h.proc.active_port h.thread
IsSettled (between, h) = status_of h ≢ some running
IsSettled (left, h) = status_of h ≢ some running
IsSettled (hung, h) = status_of h ≢ some running

pub IsConsistent-IsSettled : (t : HostTurn) → IsConsistent t → IsSettled t
unfolding IsConsistent IsSettled
IsConsistent-IsSettled (with_child, h) (listed, has_port, noted) = (has_port, noted)
IsConsistent-IsSettled (between, h) c = c
IsConsistent-IsSettled (left, h) c = c
IsConsistent-IsSettled (hung, h) c = c

pub set_status-status_of : (s : ProcState) (h : HostState) → status_of (set_status s h) ≡ some s
unfolding update_status
set_status-status_of s h =
    lookup-insert h.proc.host_name h.proc.host_name s h.statuses.map
    ∙ ap (λ b. if b then some s else status_of h) (bytes_eq_refl h.proc.host_name)

pub forget_status-status_of : (h : HostState) → status_of (forget_status h) ≡ none
forget_status-status_of h =
    lookup-remove h.proc.host_name h.proc.host_name h.statuses.map
    ∙ ap (λ b. if b then none else status_of h) (bytes_eq_refl h.proc.host_name)

-- A state other than `running`, as a test.
abbrev is_running : ProcState → Bool
is_running running = true
is_running _ = false

abbrev lists_running : Option ProcState → Bool
lists_running none = false
lists_running (some s) = is_running s

quiet :
    (s : ProcState) (h : HostState)
    → is_running s ≡ false
    → status_of (set_status s h) ≢ some running
quiet s h other e =
    let same : false ≡ true = sym other ∙ ap lists_running (sym (set_status-status_of s h) ∙ e) in
    cc

forgotten : (h : HostState) → status_of (forget_status h) ≢ some running
forgotten h e = let h' = forget_status-status_of h in cc

after_child-IsConsistent :
    (exit : Bool) (h : HostState) → status_of h ≢ some running → IsConsistent (after_child exit h)
unfolding IsConsistent
after_child-IsConsistent exit h n =
    both_branches IsConsistent h.enabled _ (between, h)
      (both_branches IsConsistent exit (left, h) (between, set_status faulty h) n
        (quiet faulty h refl))
      n

note_child-IsNoted : (port : Option ℕ) (t : Option ProcInfo) → IsNoted port (note_child port t)
note_child-IsNoted port none = tt
note_child-IsNoted port (some t) = (refl, refl)

spawn-IsConsistent :
    (m : Meets) (h : HostState) (p : ℕ) → h.proc.active_port ≡ some p → IsConsistent (spawn m h)
unfolding IsConsistent
spawn-IsConsistent m h p has_port =
    both_branches IsConsistent m.spawns _ _
      (
        set_status-status_of running (set_status starting h),
        (p, has_port),
        note_child-IsNoted h.proc.active_port h.thread,
      )
      (after_child-IsConsistent m.exit (set_status faulty (set_status starting h))
        (quiet faulty (set_status starting h) refl))

find_bin-IsConsistent :
    (m : Meets) (h : HostState) (p : ℕ) → h.proc.active_port ≡ some p → IsConsistent (find_bin m h)
unfolding IsConsistent
find_bin-IsConsistent m h p has_port =
    both_branches IsConsistent m.bin_exists _
      (between, record (set_status faulty h) { missing_bin = true })
      (spawn-IsConsistent m (record h { missing_bin = false }) p has_port) (quiet faulty h refl)

with_port-IsConsistent :
    (m : Meets) (h : HostState) (port : Option ℕ)
    → h.proc.active_port ≡ port
    → status_of h ≢ some running
    → IsConsistent (with_port m h port)
unfolding IsConsistent
with_port-IsConsistent m h none has_none n = n
with_port-IsConsistent m h (some p) has_port n = find_bin-IsConsistent m h p has_port

choose_port-IsConsistent :
    (m : Meets) (h : HostState) (c : Exec PortError (ℕ × OddBoxConfig))
    → status_of h ≢ some running
    → IsConsistent (choose_port m (take_port h c) h)
unfolding IsConsistent
choose_port-IsConsistent m h (ok (p, config)) n =
    find_bin-IsConsistent m
      (record h { config = config; proc = record (h.proc) { active_port = some p } }) p refl
choose_port-IsConsistent m h (err e) n = with_port-IsConsistent m h h.proc.active_port refl n
choose_port-IsConsistent m h panic n = n
choose_port-IsConsistent m h stalled n = n

if_enabled-IsConsistent :
    (m : Meets) (h : HostState) (enabled : Option Bool)
    → status_of h ≢ some running
    → IsConsistent (if_enabled m h enabled)
unfolding IsConsistent
if_enabled-IsConsistent m h none n = forgotten h
if_enabled-IsConsistent m h (some true) n =
    choose_port-IsConsistent m (record h { enabled = true }) _ n
if_enabled-IsConsistent m h (some false) n =
    both_branches (λ x. status_of x ≢ some running) h.enabled (set_status stopped h) h
      (quiet stopped h refl) n

turn_between-IsConsistent : (m : Meets) (h : HostState) → IsConsistent (turn_between m h)
unfolding turn_between IsConsistent
turn_between-IsConsistent m h =
    let h' = record h { thread = clear_pid h.thread } in
    both_branches IsConsistent (is_marked h.thread) (left, forget_status h') _ (forgotten h')
      (both_branches IsConsistent m.exit (left, set_status stopped h') _ (quiet stopped h' refl)
        (if_enabled-IsConsistent m (set_status stopped h') _ (quiet stopped h' refl)))

end_child-IsConsistent : (exit : Bool) (h : HostState) → IsConsistent (end_child exit h)
end_child-IsConsistent exit h =
    after_child-IsConsistent exit (set_status stopped h) (quiet stopped h refl)

take_log-active_port :
    (m : Meets) (live : Option ℕ) (h : HostState)
    → (take_log m live h).proc.active_port ≡ h.proc.active_port
take_log-active_port m none h = refl
take_log-active_port m (some live) h = refl

take_log-IsNoted :
    (m : Meets) (live : Option ℕ) (h : HostState)
    → IsNoted h.proc.active_port h.thread
    → IsNoted (take_log m live h).proc.active_port (take_log m live h).thread
take_log-IsNoted m none h noted = noted
take_log-IsNoted m (some live) h noted = noted

go_on-IsConsistent :
    (m : Meets) (h : HostState) (enabled : Option Bool)
    → IsConsistent (with_child, h)
    → IsConsistent (go_on m h enabled)
unfolding IsConsistent
go_on-IsConsistent m h none c = forgotten h
go_on-IsConsistent m h (some enabled) c =
    let h' = record h { enabled = enabled } in
    both_branches IsConsistent (is_marked h.thread) (left, set_status stopping h') _
      (quiet stopping h' refl)
      (both_branches IsConsistent enabled (with_child, h') _ c
        (end_child-IsConsistent m.exit (set_status stopping h')))

turn_with_child-IsConsistent :
    (m : Meets) (h : HostState) → IsSettled (with_child, h) → IsConsistent (turn_with_child m h)
unfolding turn_with_child IsConsistent IsSettled
turn_with_child-IsConsistent m h ((p, has_port), noted) =
    let stop = end_child-IsConsistent m.exit (set_status stopping h) in
    let logged = take_log m m.live_id h in
    both_branches IsConsistent m.child_ended _ _ (end_child-IsConsistent m.exit h) (
      both_branches IsConsistent m.exit _ _ stop (
        both_branches IsConsistent (is_replaced m.live_id h.proc.proc_id) _ _ stop (
          go_on-IsConsistent m (set_status running logged) _ (
            set_status-status_of running logged,
            (p, take_log-active_port m m.live_id h ∙ has_port),
            take_log-IsNoted m m.live_id h noted,
          ))))

pub turn-IsConsistent : (m : Meets) (t : HostTurn) → IsSettled t → IsConsistent (turn m t)
unfolding turn IsConsistent IsSettled
turn-IsConsistent m (between, h) c = turn_between-IsConsistent m h
turn-IsConsistent m (with_child, h) c = turn_with_child-IsConsistent m h c
turn-IsConsistent m (left, h) c = c
turn-IsConsistent m (hung, h) c = c
