-- ===== src/Process/Host.antt =====
-- `host` of src/proc_host.rs: the task that keeps one process running. A turn of its outer loop, in which no child
-- runs, and a turn of its inner loop, in which one does, are functions of what the task meets. Its sleeps and its log
-- are left out, and so is the signalling of the child: a child that is killed is gone.
pub mod Life
pub mod Reachable
pub mod Commands
pub mod Starting
pub mod Removal
use odd_box.Base.{
  ◌>>=◌, ◌&&◌, ◌||◌, ◌==◌, ◌∷◌, [], ok, err, panic, stalled, none, some, true, false, not,
  if◌then◌else◌, bytes_eq, lookup, remove, Exec, Bool, Option, Bytes, List, ℕ,
}
use odd_box.Config.Ports.{set_active_port, PortError}
use odd_box.Config.Sites.{FullyResolved, OddBoxConfig, LogFormat, LogLevel}
use odd_box.Http1.Message.{codes, or_else}
use odd_box.Process.Messages.{
  ProcState, ProcMessage, faulty, stopped, starting, stopping, running, start_all, stop_all, start,
  stop, delete,
}
use odd_box.Process.Status.{Statuses, update_status}

-- The entry of the process in `PROC_THREAD_MAP`.
pub record ProcInfo : Type 0 where
  pub has_pid : Bool
  pub marked_for_removal : Bool
  pub active_port : Option ℕ

-- What the task shares with the rest, and what it keeps for itself.
pub record HostState : Type 0 where
  pub statuses : Statuses
  pub config : OddBoxConfig
  pub thread : Option ProcInfo
  pub proc : FullyResolved
  pub enabled : Bool
  pub missing_bin : Bool

-- Where the task stands: between children, with a child, or at its end. `hung` is a search for a port that does not
-- end.
pub data Phase : Type 0 where
  between with_child left hung : Phase

-- What the task meets in one turn: the flag to exit, the messages that have come, whether a port is free, whether the
-- binary is found and starts, whether the child has ended by itself, and the configuration of its name at the time.
pub record Meets : Type 0 where
  pub exit : Bool
  pub messages : List ProcMessage
  pub port_is_free : ℕ → Bool
  pub random_free_port : Option ℕ
  pub bin_exists : Bool
  pub spawns : Bool
  pub child_ended : Bool
  pub live_id : Option ℕ
  pub live_log_format : Option LogFormat
  pub live_log_level : Option LogLevel

-- `split(".").next()`
unfoldable pub first_label : Bytes → Bytes
first_label [] = []
first_label (b ∷ bs) = let rest = first_label bs in if b == b'.' then [] else b ∷ rest

-- The name is the host's, or its first label.
unfoldable pub is_acceptable : Bytes → Bytes → Bool
unfolding first_label
is_acceptable host_name s = bytes_eq host_name s || bytes_eq (first_label host_name) s

abbrev pub is_for : Bytes → Bytes → Bool
is_for host_name s = bytes_eq s (codes "all") || is_acceptable host_name s

abbrev pub HostTurn : Type 0
HostTurn = Phase × HostState

abbrev pub set_status : ProcState → HostState → HostState
set_status s h = record h { statuses = update_status h.proc.host_name s h.statuses }

abbrev pub forget_status : HostState → HostState
forget_status h = record h {
  statuses = record (h.statuses) { map = remove h.proc.host_name h.statuses.map };
}

-- `while let Ok(msg) = rcv.try_recv()`: none of the messages behind a deletion is read. `refuses` is a task between
-- children whose process is excluded from being started with all.
unfoldable pub receive : Bool → Bytes → List ProcMessage → Bool → Option Bool
receive refuses host_name [] enabled = some enabled
receive refuses host_name (start_all ∷ ms) enabled =
    receive refuses host_name ms (if refuses then enabled else true)
receive refuses host_name (stop_all ∷ ms) enabled = receive refuses host_name ms false
receive refuses host_name (start s ∷ ms) enabled = receive refuses host_name ms (
    if refuses && bytes_eq s (codes "all")
    then enabled
    else if is_for host_name s
    then true
    else enabled)
receive refuses host_name (stop s ∷ ms) enabled =
    receive refuses host_name ms (if is_for host_name s then false else enabled)
receive refuses host_name (delete s ∷ ms) enabled =
    let rest = receive refuses host_name ms enabled in
    if is_acceptable host_name s then none else rest

abbrev pub is_marked : Option ProcInfo → Bool
is_marked none = false
is_marked (some t) = t.marked_for_removal

abbrev pub clear_pid : Option ProcInfo → Option ProcInfo
clear_pid none = none
clear_pid (some t) = some (record t { has_pid = false })

abbrev pub note_child : Option ℕ → Option ProcInfo → Option ProcInfo
note_child port none = none
note_child port (some t) = some (record t { has_pid = true; active_port = port })

-- What the choice of a port leaves behind.
abbrev pub take_port : HostState → Exec PortError (ℕ × OddBoxConfig) → Option HostState
take_port h (ok (p, config)) =
    some (record h { config = config; proc = record (h.proc) { active_port = some p } })
take_port h (err e) = some h
take_port h panic = none
take_port h stalled = none

-- After the child: an enabled process is faulty, and the task ends if the proxy exits.
abbrev pub after_child : Bool → HostState → HostTurn
after_child exit h =
    if h.enabled then (if exit then (left, h) else (between, set_status faulty h)) else (between, h)

abbrev pub spawn : Meets → HostState → HostTurn
spawn m h =
    let h' = set_status starting h in
    if m.spawns
    then (
      with_child,
      record (set_status running h') { thread = note_child h.proc.active_port h.thread },
    )
    else after_child m.exit (set_status faulty h')

abbrev pub find_bin : Meets → HostState → HostTurn
find_bin m h =
    if m.bin_exists
    then spawn m (record h { missing_bin = false })
    else (between, record (set_status faulty h) { missing_bin = true })

abbrev pub with_port : Meets → HostState → Option ℕ → HostTurn
with_port m h none = (between, h)
with_port m h (some p) = find_bin m h

abbrev pub choose_port : Meets → Option HostState → HostState → HostTurn
choose_port m none h = (hung, h)
choose_port m (some h') h = with_port m h' h'.proc.active_port

abbrev pub if_enabled : Meets → HostState → Option Bool → HostTurn
if_enabled m h none = (left, forget_status h)
if_enabled m h (some false) =
    (between, record (if h.enabled then set_status stopped h else h) { enabled = false })
if_enabled m h (some true) =
    let h' = record h { enabled = true } in
    choose_port m
      (take_port h' (set_active_port m.port_is_free m.random_free_port h'.config h'.proc)) h'

-- A turn of the outer loop, up to a child that runs.
unfoldable pub turn_between : Meets → HostState → HostTurn
turn_between m h =
    let h' = record h { thread = clear_pid h.thread } in
    if is_marked h.thread
    then (left, forget_status h')
    else if m.exit
    then (left, set_status stopped h')
    else if_enabled m (set_status stopped h')
        (receive h.proc.excluded_from_start_all h.proc.host_name m.messages h.enabled)

-- The child has ended or was killed.
abbrev pub end_child : Bool → HostState → HostTurn
end_child exit h = after_child exit (set_status stopped h)

abbrev pub is_replaced : Option ℕ → ℕ → Bool
is_replaced none id = false
is_replaced (some live) id = not (live == id)

abbrev pub take_log : Meets → Option ℕ → HostState → HostState
take_log m none h = h
take_log m (some live) h = record h {
  proc = record (h.proc) { log_format = m.live_log_format; log_level = m.live_log_level };
}

abbrev pub go_on : Meets → HostState → Option Bool → HostTurn
go_on m h none = (left, forget_status h)
go_on m h (some enabled) =
    let h' = record h { enabled = enabled } in
    if is_marked h'.thread
    then (left, set_status stopping h')
    else if enabled
    then (with_child, h')
    else end_child m.exit (set_status stopping h')

-- A turn of the inner loop, in which every message is for a process that runs.
unfoldable pub turn_with_child : Meets → HostState → HostTurn
turn_with_child m h =
    if m.child_ended
    then end_child m.exit h
    else if m.exit
    then end_child m.exit (set_status stopping h)
    else if is_replaced m.live_id h.proc.proc_id
    then end_child m.exit (set_status stopping h)
    else go_on m (set_status running (take_log m m.live_id h))
        (receive false h.proc.host_name m.messages h.enabled)

-- A turn of the task, wherever it stands.
unfoldable pub turn : Meets → HostTurn → HostTurn
turn m (between, h) = turn_between m h
turn m (with_child, h) = turn_with_child m h
turn m (left, h) = (left, h)
turn m (hung, h) = (hung, h)

abbrev pub starts_enabled : Option Bool → Option Bool → Bool
starts_enabled (some own) all_of_them = own
starts_enabled none (some all_of_them) = all_of_them
starts_enabled none none = true

-- The task up to its first turn: the entry of the process is put into the map.
unfoldable pub begin : Statuses → OddBoxConfig → FullyResolved → HostTurn
begin statuses config proc = (
  between,
  record {
    statuses = statuses;
    config = config;
    thread =
        some
          (record { has_pid = false; marked_for_removal = false; active_port = proc.active_port });
    proc = proc;
    enabled = starts_enabled proc.auto_start config.auto_start;
    missing_bin = false;
  },
)
