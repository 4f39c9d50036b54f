-- ===== src/Process/Host/Reachable.antt =====
-- The life of the task that keeps a process, as the steps that it and the rest of the proxy take on its state.
use odd_box.Base.{some, none, true, sym, ◌∙◌, ◌≡◌, ◌≢◌, Option, ℕ, lookup}
use odd_box.Config.Sites.{FullyResolved, OddBoxConfig}
use odd_box.Process.Messages.{running}
use odd_box.Process.Status.{Statuses}
use odd_box.Process.Host.{HostTurn, Meets, ProcInfo, between, with_child, left, hung, turn, begin}
use odd_box.Process.Host.Life.{
  IsConsistent, IsConsistent-IsSettled, IsNoted, IsSettled, status_of, turn-IsConsistent,
}

-- The entry is marked by a reload whose configuration no longer has the process.
abbrev pub mark_thread : Option ProcInfo → Option ProcInfo
mark_thread none = none
mark_thread (some t) = some (record t { marked_for_removal = true })

-- What happens to the task's state: its own turns, a mark on its entry, changes of the configuration that is shared,
-- and changes of the map of states that others make: of the entries of other sites, or of the process's own, which they
-- list in any state but as running, or take away.
pub data Step (t : HostTurn) : HostTurn → Type 0 where
  turned : (m : Meets) → Step t (turn m t)
  marked : Step t (t.0, record (t.1) { thread = mark_thread t.1.thread })
  reconfigured : (config : OddBoxConfig) → Step t (t.0, record (t.1) { config = config })
  another :
      (statuses : Statuses)
      → lookup t.1.proc.host_name statuses.map ≡ status_of t.1
      → Step t (t.0, record (t.1) { statuses = statuses })
  relisted :
      (statuses : Statuses)
      → lookup t.1.proc.host_name statuses.map ≢ some running
      → Step t (t.0, record (t.1) { statuses = statuses })

pub data Reach (s : HostTurn) : HostTurn → Type 0 where
  here : Reach s s
  next : {t u : HostTurn} → Reach s t → Step t u → Reach s u

mark_thread-IsNoted :
    (port : Option ℕ) (t : Option ProcInfo) → IsNoted port t → IsNoted port (mark_thread t)
mark_thread-IsNoted port none n = n
mark_thread-IsNoted port (some t) n = n

marked-IsSettled :
    (t : HostTurn) → IsSettled t → IsSettled (t.0, record (t.1) { thread = mark_thread t.1.thread })
unfolding IsSettled
marked-IsSettled (between, h) c = c
marked-IsSettled (with_child, h) (has_port, noted) =
    (has_port, mark_thread-IsNoted h.proc.active_port h.thread noted)
marked-IsSettled (left, h) c = c
marked-IsSettled (hung, h) c = c

reconfigured-IsSettled :
    (config : OddBoxConfig) (t : HostTurn)
    → IsSettled t
    → IsSettled (t.0, record (t.1) { config = config })
unfolding IsSettled
reconfigured-IsSettled config (between, h) c = c
reconfigured-IsSettled config (with_child, h) c = c
reconfigured-IsSettled config (left, h) c = c
reconfigured-IsSettled config (hung, h) c = c

-- Others leave a state that is not `running`, or the one that there was.
others-IsSettled :
    (statuses : Statuses) (t : HostTurn)
    → (lookup t.1.proc.host_name statuses.map ≡ some running → status_of t.1 ≡ some running)
    → IsSettled t
    → IsSettled (t.0, record (t.1) { statuses = statuses })
unfolding IsSettled
others-IsSettled statuses (between, h) k c = λ r. c (k r)
others-IsSettled statuses (with_child, h) k c = c
others-IsSettled statuses (left, h) k c = λ r. c (k r)
others-IsSettled statuses (hung, h) k c = λ r. c (k r)

Step-IsSettled : {t u : HostTurn} → Step t u → IsSettled t → IsSettled u
Step-IsSettled {t} (turned m) c = IsConsistent-IsSettled (turn m t) (turn-IsConsistent m t c)
Step-IsSettled {t} marked c = marked-IsSettled t c
Step-IsSettled {t} (reconfigured config) c = reconfigured-IsSettled config t c
Step-IsSettled {t} (another statuses e) c = others-IsSettled statuses t (λ r. sym e ∙ r) c
Step-IsSettled {t} (relisted statuses n) c = others-IsSettled statuses t (λ r. absurd (n r)) c

Reach-keeps : {s t : HostTurn} → IsSettled s → Reach s t → IsSettled t
Reach-keeps c here = c
Reach-keeps c (next r st) = Step-IsSettled st (Reach-keeps c r)

-- Whatever the task meets from its beginning on, and whatever happens meanwhile to the entry, to the configuration and
-- to the map of states, as long as nobody else lists the process as running: while it has a child the process has a
-- port, and its entry, if there is one, names that port; without a child the process is not listed as running. After
-- each turn of the task, moreover, a process with a child is listed as running. It was not listed so when the task
-- began.
pub Reach-IsConsistent :
    {t : HostTurn} (statuses : Statuses) (config : OddBoxConfig) (proc : FullyResolved) (m : Meets)
    → lookup proc.host_name statuses.map ≢ some running
    → Reach (begin statuses config proc) t
    → IsSettled t × IsConsistent (turn m t)
unfolding IsSettled begin
Reach-IsConsistent {t} statuses config proc m n r =
    let settled = Reach-keeps n r in (settled, turn-IsConsistent m t settled)
