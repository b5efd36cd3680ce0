-- ===== src/EventLog/Drain.antt =====
-- `log_pending_events` and `run_event_logging_loop` of hand_core_event_logging_thread.cpp. The control
-- thread pushes meanwhile: a round is what it pushes between two pops of the logging thread.
use Prim.Native.String.{◌++◌}
use aidin_hand2_sdk.Base.{
  ℕ, ◌-◌, ◌==◌, Bool, true, false, leb, if◌then◌else◌, Option, none, some, List, [], ◌∷◌, map,
  ◌++◌ as ◌+++◌,
}
use aidin_hand2_sdk.EventRing.{Ring, sub_u64, push, pop, count_dropped}
use aidin_hand2_sdk.Types.Events.{RealtimeEvent}
use aidin_hand2_sdk.Lifecycle.Phrase.{to_string}
use aidin_hand2_sdk.EventLog.Text.{Line, warn}

abbrev pub Round : Type 0
Round = List RealtimeEvent

unfoldable pub push_all : Round → Ring RealtimeEvent → Ring RealtimeEvent
push_all [] ring = ring
push_all (event ∷ events) ring = push_all events (push event ring).0

unfoldable pub push_rounds : List Round → Ring RealtimeEvent → Ring RealtimeEvent
push_rounds [] ring = ring
push_rounds (round ∷ rounds) ring = push_rounds rounds (push_all round ring)

-- The ring, the events popped, and whether the loop ended, which it does at an empty ring; the rounds
-- that are left are pushed then. Where there is no round left before, the loop is cut off.
pub record Drained : Type 0 where
  pub ring : Ring RealtimeEvent
  pub popped : List RealtimeEvent
  pub ended : Bool

unfoldable pub drain : List Round → Ring RealtimeEvent → Drained
drain [] ring = record { ring = ring; popped = []; ended = false }
drain (round ∷ rounds) ring =
    let (left, front) = pop (push_all round ring) in
    elim front [
      | none ↦ record { ring = push_rounds rounds left; popped = []; ended = true }
      | some event ↦
          let rest = drain rounds left in
          record { ring = rest.ring; popped = event ∷ rest.popped; ended = rest.ended }
    ]

-- The ring and count_reported_dropped_.
pub record LogState : Type 0 where
  pub ring : Ring RealtimeEvent
  pub reported : ℕ

unfoldable pub dropped_line : ℕ → Line
dropped_line count = record {
  severity = warn;
  text = to_string count ++ " realtime events dropped (event ring full)";
}

-- What one call leaves, and the lines it writes.
pub record Logged : Type 0 where
  pub state : LogState
  pub lines : List Line

-- What reaches the log.
pub data Output : Type 0 where
  written : Line → Output
  flushed : Output

abbrev pub logging_cycles_per_flush : ℕ
logging_cycles_per_flush = 20

module _ (line_of : RealtimeEvent → Option Line) where
  unfoldable pub lines_of : List RealtimeEvent → List Line
  lines_of [] = []
  lines_of (event ∷ events) = elim (line_of event) [
    | none ↦ lines_of events
    | some line ↦ line ∷ lines_of events
  ]

  unfoldable pub log_pending_events : List Round → LogState → Logged
  log_pending_events rounds s =
      let drained = drain rounds s.ring in
      let lines = lines_of drained.popped in
      let dropped = count_dropped drained.ring in
      let count = sub_u64 dropped s.reported in
      if dropped == s.reported
      then record { state = record { ring = drained.ring; reported = s.reported }; lines = lines }
      else record {
        state = record { ring = drained.ring; reported = dropped };
        lines = lines +++ dropped_line count ∷ [];
      }

  -- The thread, from a state and with the cycles left until a flush; one entry for each time that
  -- event_logging_running_ is loaded as true, and the rounds of the last call.
  unfoldable pub run_event_logging_loop :
      List (List Round) → List Round → ℕ → LogState → LogState × List Output
  run_event_logging_loop [] last left s =
      let logged = log_pending_events last s in
      (logged.state, map written logged.lines +++ flushed ∷ [])
  run_event_logging_loop (rounds ∷ cycles) last left s =
      let logged = log_pending_events rounds s in
      let flushes = leb left 1 in
      let (end, output) =
        run_event_logging_loop cycles last (if flushes then logging_cycles_per_flush else left - 1)
          logged.state in
      (end, map written logged.lines +++ (if flushes then flushed ∷ output else output))
