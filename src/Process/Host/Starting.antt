-- ===== src/Process/Host/Starting.antt =====
-- A process that is asked to start is started.
use odd_box.Base.{
  ◌∷◌, [], ◌++◌, some, true, false, refl, ap, ◌∙◌, ◌≡◌, Bool, List, Bytes, ℕ, ok, arith,
}
use odd_box.Config.Ports.{set_active_port}
use odd_box.Config.Sites.{OddBoxConfig}
use odd_box.Process.Messages.{
  ProcMessage, stopped, starting, running, start, stop, delete, start_all, stop_all,
}
use odd_box.Process.Host.{
  HostState, Meets, between, with_child, set_status, turn_between, turn, receive, is_marked,
  clear_pid, note_child, is_acceptable,
}
use odd_box.Process.Host.Life.{status_of, set_status-status_of}
use odd_box.Process.Host.Commands.{asks, receive-append}

receive-start :
    (refuses : Bool) (n : Bytes) (ms : List ProcMessage) (last : ProcMessage) (e b : Bool)
    → receive refuses n ms e ≡ some b
    → asks refuses n last ≡ true
    → receive refuses n (ms ++ last ∷ []) e ≡ some true
unfolding receive asks is_acceptable
receive-start refuses n ms (start s) e b before here =
    receive-append refuses n ms (start s ∷ []) e b before ∙ ground arith
receive-start refuses n ms start_all e b before here =
    receive-append refuses n ms (start_all ∷ []) e b before ∙ ground arith
receive-start refuses n ms stop_all e b before here = absurd (cc)
receive-start refuses n ms (stop s) e b before here = absurd (cc)
receive-start refuses n ms (delete s) e b before here = absurd (cc)

-- A process between children whose last message asks it to start (one to start all, unless it is excluded from that, or
-- one that names it, its first label, or all), no message before it having deleted it, has a child
-- after that turn, on the port that is chosen for it, and is enabled and listed as running: if it is not marked for
-- removal, the proxy does not exit, and the binary is found and starts.
pub turn-start :
    (m : Meets) (h : HostState) (ms : List ProcMessage) (last : ProcMessage) (b : Bool) (p : ℕ)
    (config : OddBoxConfig)
    → is_marked h.thread ≡ false
    → m.exit ≡ false
    → m.messages ≡ ms ++ last ∷ []
    → receive h.proc.excluded_from_start_all h.proc.host_name ms h.enabled ≡ some b
    → asks h.proc.excluded_from_start_all h.proc.host_name last ≡ true
    → set_active_port m.port_is_free m.random_free_port h.config h.proc ≡ ok (p, config)
    → m.bin_exists ≡ true
    → m.spawns ≡ true
    → (h' : HostState) × (turn m (between, h) ≡ (with_child, h'))
      × (h'.enabled ≡ true)
      × (h'.proc.active_port ≡ some p)
      × (h'.config ≡ config)
      × (status_of h' ≡ some running)
unfolding turn turn_between
turn-start m h ms last b p config unmarked stay sent before asked chosen found starts =
    let enabled : receive h.proc.excluded_from_start_all h.proc.host_name m.messages h.enabled
        ≡ some true =
      ap (λ x. receive h.proc.excluded_from_start_all h.proc.host_name x h.enabled) sent
      ∙ receive-start h.proc.excluded_from_start_all h.proc.host_name ms last h.enabled b before
          asked in
    let h1 = record (set_status stopped (record h { thread = clear_pid h.thread })) {
      enabled = true;
      config = config;
      proc = record (h.proc) { active_port = some p };
      missing_bin = false;
    } in
    (
      record (set_status running (set_status starting h1)) {
        thread = note_child (some p) h1.thread;
      },
      simp (unmarked, stay, enabled, chosen, found, starts) refl,
      refl,
      refl,
      refl,
      set_status-status_of running (set_status starting h1),
    )
