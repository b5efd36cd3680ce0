-- ===== src/EventLog/Drops.antt =====
-- What the logging thread reports of the events that the full ring refused
-- (hand_core_event_logging_thread.cpp).
use Prim.Native.String.{◌++◌ as ◌⧺◌}
use mathlib.Core.List.{append-nil}
use aidin_hand2_sdk.Base.{
  ℕ, true, sym, ap, map, false, ◌+◌, ◌-◌, ◌%◌, ◌^◌, ◌<◌, ◌≡◌, refl, leb, ◌==◌, if◌then◌else◌, arith,
  inl, inr, Bool-cases, Option-cases, Option, List, [], ◌∷◌, ◌++◌,
}
use aidin_hand2_sdk.EventRing.{Ring, sub_u64, push, pop, count_dropped}
use aidin_hand2_sdk.Types.Events.{RealtimeEvent}
use aidin_hand2_sdk.Lifecycle.Phrase.{to_string}
use aidin_hand2_sdk.EventLog.Text.{Line, warn}
use aidin_hand2_sdk.EventLog.Drain.{
  Round, push_all, push_rounds, drain, LogState, dropped_line, Output, written, flushed, lines_of,
  log_pending_events, run_event_logging_loop,
}

-- The counter is a uint64_t.
abbrev pub IsCount : Ring RealtimeEvent → Type 0
IsCount r = count_dropped r < 2 ^ 64

push-IsCount :
    (event : RealtimeEvent) (r : Ring RealtimeEvent) → IsCount r → IsCount (push event r).0
unfolding push count_dropped
push-IsCount event r h = ground arith

pop-IsCount : (r : Ring RealtimeEvent) → IsCount r → IsCount (pop r).0
unfolding pop count_dropped
pop-IsCount r h = ground arith

push_all-IsCount : (round : Round) (r : Ring RealtimeEvent) → IsCount r → IsCount (push_all round r)
unfolding push_all
push_all-IsCount [] r h = h
push_all-IsCount (event ∷ round) r h =
    push_all-IsCount round (push event r).0 (push-IsCount event r h)

push_rounds-IsCount :
    (rounds : List Round) (r : Ring RealtimeEvent) → IsCount r → IsCount (push_rounds rounds r)
unfolding push_rounds
push_rounds-IsCount [] r h = h
push_rounds-IsCount (round ∷ rounds) r h =
    push_rounds-IsCount rounds (push_all round r) (push_all-IsCount round r h)

drain-IsCount :
    (rounds : List Round) (r : Ring RealtimeEvent) → IsCount r → IsCount (drain rounds r).ring
unfolding drain
drain-IsCount [] r h = h
drain-IsCount (round ∷ rounds) r h =
    let left = (pop (push_all round r)).0 in
    let counted = pop-IsCount (push_all round r) (push_all-IsCount round r h) in
    elim (Option-cases (pop (push_all round r)).1) [
      | inl e ↦ rw (drain, e) (push_rounds-IsCount rounds left counted)
      | inr (event, e) ↦ rw (drain, e) (drain-IsCount rounds left counted)
    ]

add_mod :
    (start now total reported middle end : ℕ)
    → total ≡ reported + now
    → (start + reported) % 2 ^ 64 ≡ middle
    → (middle + now) % 2 ^ 64 ≡ end
    → (start + total) % 2 ^ 64 ≡ end
add_mod start now total reported middle end a b c = omega arith

difference :
    (dropped reported : ℕ)
    → dropped < 2 ^ 64
    → reported < 2 ^ 64
    → (dropped == reported) ≡ false
    → ((sub_u64 dropped reported == 0) ≡ false)
      × ((reported + sub_u64 dropped reported) % 2 ^ 64 ≡ dropped)
difference dropped reported a b e = (ground arith, omega arith)

agreement :
    (dropped reported : ℕ)
    → dropped < 2 ^ 64
    → reported < 2 ^ 64
    → (dropped == reported) ≡ true
    → ((sub_u64 dropped reported == 0) ≡ true)
      × ((reported + sub_u64 dropped reported) % 2 ^ 64 ≡ dropped)
      × (reported ≡ dropped)
agreement dropped reported a b e =
    let same : reported ≡ dropped = ground arith in rw same (ground arith, omega arith, refl)

-- The events that one call takes, and how many were refused since the number reported before it.
pub record Taken : Type 0 where
  pub events : List RealtimeEvent
  pub refused : ℕ

abbrev pub taken : List Round → Ring RealtimeEvent → ℕ → Taken
taken rounds ring reported = record {
  events = (drain rounds ring).popped;
  refused = sub_u64 (count_dropped (drain rounds ring).ring) reported;
}

-- What a call leaves.
abbrev pub drained_state : List Round → Ring RealtimeEvent → LogState
drained_state rounds ring = record {
  ring = (drain rounds ring).ring;
  reported = count_dropped (drain rounds ring).ring;
}

-- What the calls of a run take, each reporting the counter as it stands when it has drained the ring,
-- and what the final call takes.
abbrev pub takes : List (List Round) → List Round → Ring RealtimeEvent → ℕ → List Taken × Taken
takes [] last ring reported = ([], taken last ring reported)
takes (rounds ∷ cycles) last ring reported =
    let left = (drain rounds ring).ring in
    let (calls, final) = takes cycles last left (count_dropped left) in
    (taken rounds ring reported ∷ calls, final)

abbrev pub total_refused : List Taken → ℕ
total_refused [] = 0
total_refused (call ∷ calls) = call.refused + total_refused calls

module _ (line_of : RealtimeEvent → Option Line) where
  -- The lines of one call that takes some events, with `refused` more refused than were reported.
  abbrev pub call_lines : List RealtimeEvent → ℕ → List Line
  call_lines events refused =
      lines_of line_of events
      ++ (if refused == 0
          then []
          else record {
            severity = warn;
            text = to_string refused ⧺ " realtime events dropped (event ring full)";
          }
            ∷ [])

  -- What a run writes that takes these events and reports these numbers, call by call: the lines of
  -- each, a flush behind every twentieth, and one behind the final call.
  abbrev pub log_of : ℕ → List Taken → Taken → List Output
  log_of left [] final = map written (call_lines final.events final.refused) ++ flushed ∷ []
  log_of left (call ∷ calls) final =
      let rest = log_of (if leb left 1 then 20 else left - 1) calls final in
      map written (call_lines call.events call.refused)
      ++ (if leb left 1 then flushed ∷ rest else rest)

  -- One call brings the number reported up to the counter, and writes the difference.
  log_pending_events-reports :
      (rounds : List Round) (s : LogState)
      → IsCount s.ring
      → s.reported < 2 ^ 64
      → let logged = log_pending_events line_of rounds s in
        let call = taken rounds s.ring s.reported in
        IsCount (drain rounds s.ring).ring
        × (logged.state ≡ drained_state rounds s.ring)
        × ((s.reported + call.refused) % 2 ^ 64 ≡ count_dropped (drain rounds s.ring).ring)
        × (logged.lines ≡ call_lines call.events call.refused)
  unfolding log_pending_events dropped_line
  log_pending_events-reports rounds s counted reported =
      let counted' = drain-IsCount rounds s.ring counted in
      let dropped = count_dropped (drain rounds s.ring).ring in
      elim (Bool-cases (dropped == s.reported)) [
        | inl same ↦
            let (none_left, total, equal) = agreement dropped s.reported counted' reported same in
            rw same (
              counted',
              ap (λ x. record { ring = (drain rounds s.ring).ring; reported = x }) equal,
              total,
              rw none_left (sym (append-nil _)),
            )
        | inr differs ↦
            let (some_left, total) = difference dropped s.reported counted' reported differs in
            rw differs (counted', refl, total, rw some_left refl)
      ]

  -- Over a whole run of the thread, with any pushes between its pops: what reaches the log is, call by
  -- call, the lines of the events taken and, unless the number is 0, one warning with the number of
  -- events refused since the last report, with the flushes of every twentieth call and of the end. The
  -- numbers in these warnings add up to what was refused since the start (modulo 2 ^ 64), and the
  -- number reported ends as the counter: every refused event is reported, and once.
  pub run_event_logging_loop-reports :
      (cycles : List (List Round)) (last : List Round) (left : ℕ) (s : LogState)
      → IsCount s.ring
      → s.reported < 2 ^ 64
      → let (end, output) = run_event_logging_loop line_of cycles last left s in
        let (calls, final) = takes cycles last s.ring s.reported in
        (end.reported ≡ count_dropped end.ring)
        × (output ≡ log_of left calls final)
        × ((s.reported + (total_refused calls + final.refused)) % 2 ^ 64 ≡ count_dropped end.ring)
  unfolding run_event_logging_loop
  run_event_logging_loop-reports [] last left s counted reported =
      let (_, state, total, lines) = log_pending_events-reports last s counted reported in
      (
        rw state refl,
        ap (λ x. map written x ++ flushed ∷ []) lines,
        rw state (omega (arith, total)),
      )
  run_event_logging_loop-reports (rounds ∷ cycles) last left s counted reported =
      let (counted', state, total, lines) = log_pending_events-reports rounds s counted reported in
      let next = if leb left 1 then 20 else left - 1 in
      let middle = drained_state rounds s.ring in
      let here = taken rounds s.ring s.reported in
      let (same, output, total') =
        run_event_logging_loop-reports cycles last next middle counted' counted' in
      let (calls, final) = takes cycles last middle.ring middle.reported in
      (
        rw state same,
        rw (state, lines, output) refl,
        rw state (
            add_mod s.reported (total_refused calls + final.refused) _ here.refused middle.reported
              _ (omega arith) total total'),
      )
