-- ===== src/Process/Host/Removal.antt =====
-- A process that a reload has marked for removal.
use odd_box.Base.{some, none, true, false, refl, ◌≡◌, Bool, Option, ℕ}
use odd_box.Process.Messages.{stopping, running}
use odd_box.Process.Host.{
  HostState, Meets, between, with_child, left, set_status, forget_status, turn_between,
  turn_with_child, turn, receive, is_marked, clear_pid, take_log, is_replaced,
}
use odd_box.Process.Host.Life.{status_of, set_status-status_of}

take_log-thread :
    (m : Meets) (live : Option ℕ) (h : HostState) → (take_log m live h).thread ≡ h.thread
take_log-thread m none h = refl
take_log-thread m (some live) h = refl

-- The task of a process that is marked for removal ends after its next turn. What the map of states says of
-- the process then depends on when it notices: between children the process is no longer listed; with a child, which it
-- ends, the process is left there as stopping.
pub turn-is_marked :
    (m : Meets) (h : HostState) (e : Bool)
    → is_marked h.thread ≡ true
    → m.child_ended ≡ false
    → m.exit ≡ false
    → is_replaced m.live_id h.proc.proc_id ≡ false
    → receive false h.proc.host_name m.messages h.enabled ≡ some e
    → (turn m (between, h) ≡ (left, forget_status (record h { thread = clear_pid h.thread })))
      × ((h' : HostState) × (turn m (with_child, h) ≡ (left, h')) × (status_of h' ≡ some stopping))
unfolding turn turn_between turn_with_child
turn-is_marked m h e marked runs stay same heard =
    let h1 = set_status running (take_log m m.live_id h) in
    (
      simp marked refl,
      (
        set_status stopping (record h1 { enabled = e }),
        simp (runs, stay, same, heard, take_log-thread m m.live_id h, marked) refl,
        set_status-status_of stopping (record h1 { enabled = e }),
      ),
    )
