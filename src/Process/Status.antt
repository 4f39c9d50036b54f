-- ===== src/Process/Status.antt =====
-- `update_status` of src/proc_host.rs: the map from host names to states, and the event that tells of a change.
use odd_box.Base.{
  ◌∷◌, List, none, some, true, false, Bool, Option, Bytes, lookup, insert, if◌then◌else◌, not,
}
use odd_box.Process.Messages.{
  ProcState, faulty, stopped, starting, stopping, running, remote, dir_server, docker,
}

-- `==` on states
unfoldable pub state_eq : ProcState → ProcState → Bool
state_eq faulty faulty = true
state_eq stopped stopped = true
state_eq starting starting = true
state_eq stopping stopping = true
state_eq running running = true
state_eq remote remote = true
state_eq dir_server dir_server = true
state_eq docker docker = true
state_eq _ _ = false

-- `site_status_map`, and the events that were sent, the last one first.
pub record Statuses : Type 0 where
  pub map : List (Bytes × ProcState)
  pub events : List (Bytes × ProcState)

abbrev pub is_new : Option ProcState → ProcState → Bool
is_new none s = true
is_new (some old) s = not (state_eq old s)

-- The event is sent whether or not anybody receives it.
unfoldable pub update_status : Bytes → ProcState → Statuses → Statuses
update_status host_name s g = record {
  map = insert host_name s g.map;
  events = if is_new (lookup host_name g.map) s then (host_name, s) ∷ g.events else g.events;
}

-- What is returned: the new state, but the previous one if nobody received the event.
unfoldable pub updated_state : Bool → ProcState → Bytes → ProcState → Statuses → ProcState
updated_state has_receiver previous host_name s g =
    if is_new (lookup host_name g.map) s then (if has_receiver then s else previous) else s
