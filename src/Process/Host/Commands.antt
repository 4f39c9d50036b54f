-- ===== src/Process/Host/Commands.antt =====
-- The messages that keep a process without a child: one that is stopped, or was not started, stays so until it is
-- asked.
use odd_box.Base.{
  ◌∷◌, [], ◌++◌, ◌&&◌, ◌||◌, not, some, none, true, false, if◌then◌else◌, both_branches, refl, ap,
  ◌∙◌, ◌≡◌, ◌≢◌, Bool-cases, inl, inr, Bool, Option, List, Bytes, ℕ, bytes_eq, arith,
}
use odd_box.Config.Sites.{any, FullyResolved, OddBoxConfig}
use odd_box.Http1.Message.{codes}
use odd_box.Process.Messages.{
  ProcMessage, stopped, stopping, running, start_all, stop_all, start, stop, delete,
}
use odd_box.Process.Host.{
  HostState, HostTurn, Meets, between, with_child, left, hung, set_status, forget_status,
  if_enabled, turn_between, end_child, go_on, turn_with_child, turn, receive, is_marked, clear_pid,
  begin, starts_enabled, take_log, is_replaced, is_acceptable, is_for, first_label,
}
use mathlib.Core.Option.{some-injective}
use odd_box.Process.Status.{Statuses}

-- The text is the process's name, the name's first label, or `all`.
abbrev pub names : Bytes → Bytes → Bool
names host_name s =
    bytes_eq s (codes "all") || (bytes_eq host_name s || bytes_eq (first_label host_name) s)

-- The message asks the process to start; `refuses` is a process between children that is excluded from starting with
-- all.
unfoldable pub asks : Bool → Bytes → ProcMessage → Bool
asks refuses host_name start_all = not refuses
asks refuses host_name (start s) = names host_name s && not (refuses && bytes_eq s (codes "all"))
asks refuses host_name _ = false

-- The message asks the process to stop.
unfoldable pub asks_to_stop : Bytes → ProcMessage → Bool
asks_to_stop host_name stop_all = true
asks_to_stop host_name (stop s) = names host_name s
asks_to_stop host_name _ = false

pub receive-append :
    (refuses : Bool) (n : Bytes) (ms ns : List ProcMessage) (e b : Bool)
    → receive refuses n ms e ≡ some b
    → receive refuses n (ms ++ ns) e ≡ receive refuses n ns b
unfolding receive
receive-append refuses n [] ns e b h = ap (receive refuses n ns) (some-injective e b h)
receive-append refuses n (start_all ∷ ms) ns e b h = receive-append refuses n ms ns _ b h
receive-append refuses n (stop_all ∷ ms) ns e b h = receive-append refuses n ms ns _ b h
receive-append refuses n (start s ∷ ms) ns e b h = receive-append refuses n ms ns _ b h
receive-append refuses n (stop s ∷ ms) ns e b h = receive-append refuses n ms ns _ b h
receive-append refuses n (delete s ∷ ms) ns e b h = elim (Bool-cases (is_acceptable n s)) [
  | inl it ↦ let never : none ≡ some b = rw it at h in absurd (cc)
  | inr other ↦ rw other (receive-append refuses n ms ns e b (rw other at h))
]

receive-stays :
    (refuses : Bool) (n : Bytes) (ms : List ProcMessage)
    → any (asks refuses n) ms ≡ false
    → receive refuses n ms false ≢ some true
unfolding receive any asks is_acceptable
receive-stays refuses n [] h = λ e. cc
receive-stays true n (start_all ∷ ms) h = receive-stays true n ms h
receive-stays false n (start_all ∷ ms) h = absurd (cc)
receive-stays refuses n (stop_all ∷ ms) h = receive-stays refuses n ms h
receive-stays refuses n (start s ∷ ms) h = ground (arith, receive-stays refuses n ms)
receive-stays refuses n (stop s ∷ ms) h =
    both_branches (λ e. receive refuses n ms e ≢ some true) (is_for n s) false false
      (receive-stays refuses n ms h) (receive-stays refuses n ms h)
receive-stays refuses n (delete s ∷ ms) h =
    both_branches (λ r. r ≢ some true) (is_acceptable n s) none _ (λ e. cc)
      (receive-stays refuses n ms h)

-- The task of the process has no child, and between children it is disabled.
unfoldable pub IsOff : Bool → Bytes → HostTurn → Type 0
IsOff excluded n (between, h) =
    (h.enabled ≡ false) × (h.proc.host_name ≡ n) × (h.proc.excluded_from_start_all ≡ excluded)
IsOff excluded n (with_child, h) = ⊥
IsOff excluded n (left, h) = Unit
IsOff excluded n (hung, h) = Unit

unfoldable pub asks_none : Bool → Bytes → List Meets → Bool
asks_none excluded n [] = true
asks_none excluded n (m ∷ later) =
    not (any (asks excluded n) m.messages) && asks_none excluded n later

-- Turn after turn.
unfoldable pub run : List Meets → HostTurn → HostTurn
run [] t = t
run (m ∷ later) t = run later (turn m t)

if_enabled-IsOff :
    (m : Meets) (h : HostState) (excluded : Bool) (n : Bytes) (e : Option Bool)
    → e ≢ some true
    → IsOff excluded n (between, h)
    → IsOff excluded n (if_enabled m h e)
unfolding IsOff
if_enabled-IsOff m h excluded n none not_on off = tt
if_enabled-IsOff m h excluded n (some true) not_on off = absurd (not_on refl)
if_enabled-IsOff m h excluded n (some false) not_on (off, name, ex) =
    both_branches (λ x. IsOff excluded n (between, record x { enabled = false })) h.enabled
      (set_status stopped h) h (refl, name, ex) (refl, name, ex)

turn-IsOff :
    (m : Meets) (excluded : Bool) (n : Bytes) (t : HostTurn)
    → any (asks excluded n) m.messages ≡ false
    → IsOff excluded n t
    → IsOff excluded n (turn m t)
unfolding turn turn_between IsOff
turn-IsOff m excluded n (left, h) quiet off = tt
turn-IsOff m excluded n (hung, h) quiet off = tt
turn-IsOff m excluded n (with_child, h) quiet off = absurd off
turn-IsOff m excluded n (between, h) quiet (off, name, ex) =
    let h' = record h { thread = clear_pid h.thread } in
    both_branches (IsOff excluded n) (is_marked h.thread) (left, forget_status h') _ tt
      (both_branches (IsOff excluded n) m.exit (left, set_status stopped h') _ tt
        (if_enabled-IsOff m (set_status stopped h') excluded n _
          (rw (off, name, ex) (receive-stays excluded n m.messages quiet)) (off, name, ex)))

run-IsOff :
    (excluded : Bool) (n : Bytes) (later : List Meets) (t : HostTurn)
    → asks_none excluded n later ≡ true
    → IsOff excluded n t
    → IsOff excluded n (run later t)
unfolding run asks_none
run-IsOff excluded n [] t quiet off = off
run-IsOff excluded n (m ∷ later) t quiet off =
    elim (Bool-cases (any (asks excluded n) m.messages)) [
      | inl asked ↦ let never : false ≡ true = rw asked at quiet in absurd (cc)
      | inr silent ↦
          run-IsOff excluded n later (turn m t) (rw silent at quiet)
            (turn-IsOff m excluded n t silent off)
    ]

-- A message that stops the process is the last that counts.
receive-stop :
    (n : Bytes) (ms : List ProcMessage) (last : ProcMessage) (e b : Bool)
    → receive false n ms e ≡ some b
    → asks_to_stop n last ≡ true
    → receive false n (ms ++ last ∷ []) e ≡ some false
unfolding receive asks_to_stop is_acceptable
receive-stop n ms (stop s) e b before here =
    receive-append false n ms (stop s ∷ []) e b before
    ∙ ap (λ (c : Bool). some (if c then false else b)) here
receive-stop n ms stop_all e b before here = receive-append false n ms (stop_all ∷ []) e b before
receive-stop n ms start_all e b before here = absurd (cc)
receive-stop n ms (start s) e b before here = absurd (cc)
receive-stop n ms (delete s) e b before here = absurd (cc)

end_child-IsOff :
    (exit : Bool) (h : HostState) (excluded : Bool) (n : Bytes)
    → IsOff excluded n (between, h)
    → IsOff excluded n (end_child exit h)
unfolding IsOff
end_child-IsOff exit h excluded n (off, name, ex) = rw off (refl, name, ex)

go_on-IsOff :
    (m : Meets) (h : HostState)
    → IsOff h.proc.excluded_from_start_all h.proc.host_name (go_on m h (some false))
unfolding IsOff
go_on-IsOff m h =
    let h' = set_status stopping (record h { enabled = false }) in
    let off = IsOff h.proc.excluded_from_start_all h.proc.host_name in
    both_branches off (is_marked h.thread) (left, h') _ tt
      (end_child-IsOff m.exit h' h.proc.excluded_from_start_all h.proc.host_name (refl, refl, refl))

go_on_logged-IsOff :
    (m : Meets) (live : Option ℕ) (h : HostState)
    → IsOff h.proc.excluded_from_start_all h.proc.host_name
        (go_on m (set_status running (take_log m live h)) (some false))
go_on_logged-IsOff m none h = go_on-IsOff m (set_status running h)
go_on_logged-IsOff m (some live) h = go_on-IsOff m (set_status running (take_log m (some live) h))

-- A process that runs and is not to end anyway has no child after a turn whose last message stops all, or the
-- process by its name, by its first label or with all, unless a
-- message before it deleted the process; and it has none in the turns that follow, until one brings a message that asks
-- it to start. With the process excluded from starting with all, only its own name asks.
pub run-stop :
    (m : Meets) (h : HostState) (ms : List ProcMessage) (last : ProcMessage) (b : Bool)
    (later : List Meets)
    → m.child_ended ≡ false
    → m.exit ≡ false
    → is_replaced m.live_id h.proc.proc_id ≡ false
    → m.messages ≡ ms ++ last ∷ []
    → receive false h.proc.host_name ms h.enabled ≡ some b
    → asks_to_stop h.proc.host_name last ≡ true
    → asks_none h.proc.excluded_from_start_all h.proc.host_name later ≡ true
    → IsOff h.proc.excluded_from_start_all h.proc.host_name (run (m ∷ later) (with_child, h))
unfolding run turn turn_with_child
run-stop m h ms last b later runs stay same sent before here silent =
    let stopped_by : receive false h.proc.host_name m.messages h.enabled ≡ some false =
      ap (λ x. receive false h.proc.host_name x h.enabled) sent
      ∙ receive-stop h.proc.host_name ms last h.enabled b before here in
    run-IsOff h.proc.excluded_from_start_all h.proc.host_name later (turn_with_child m h) silent
      (simp (runs, stay, same, stopped_by) (go_on_logged-IsOff m m.live_id h))

-- A process that is not started automatically has no child, from the beginning of its task on, until a message asks it
-- to start. With the process excluded from starting with all, only its own name asks.
pub run-begin :
    (statuses : Statuses) (config : OddBoxConfig) (proc : FullyResolved) (later : List Meets)
    → starts_enabled proc.auto_start config.auto_start ≡ false
    → asks_none proc.excluded_from_start_all proc.host_name later ≡ true
    → IsOff proc.excluded_from_start_all proc.host_name (run later (begin statuses config proc))
unfolding begin IsOff
run-begin statuses config proc later off silent =
    run-IsOff proc.excluded_from_start_all proc.host_name later (begin statuses config proc) silent
      (off, refl, refl)
