-- ===== src/Core/Preserve.antt =====
-- Every public call of `HandCore` keeps a consistent state consistent
-- (cpp/src/hand_core/hand_core.cpp).
use aidin_hand2_sdk.Base.{
  ◌≡◌, refl, ◌∙◌, Bool, true, false, [], ◌∷◌, not, ◌&&◌, ◌||◌, arith, if-split, List, Option, none,
  some,
}
use aidin_hand2_sdk.Types.Error.{ErrorCode, is_ok}
use aidin_hand2_sdk.Types.Lifecycle.{
  HandLifecycle, HomingState, in_progress, disconnected, connected, running, stopped, faulted,
  is_running, is_stopped, is_faulted,
}
use aidin_hand2_sdk.Lifecycle.Action.{HandAction, run, stop, home}
use aidin_hand2_sdk.Control.Command.{Doubles}
use aidin_hand2_sdk.Core.State.{
  Hand, Round, World, is_connected, is_homed, store_requested, store_lifecycle,
  reset_command_to_idle, stage, check_allowed,
}
use aidin_hand2_sdk.Core.Waits.{wait_observed, wait_homing, still_homing}
use aidin_hand2_sdk.Core.Operation.{
  stop_hand, request_control, request_hold_pose, enable_control, start_homing, homing_answer,
  home_hand, run_hand,
}
use aidin_hand2_sdk.Core.Loop.{AllLoop, IsFair, wait_observed-ByLoop}
use aidin_hand2_sdk.Core.Consistent.{IsConsistent, check_allowed-possible, ByLoop-IsConsistent}

abbrev is_linked_call : HandAction → Bool
is_linked_call run = true
is_linked_call stop = true
is_linked_call home = true
is_linked_call _ = false

pub not-false : {b : Bool} → not b ≡ false → b ≡ true
not-false {b = true} e = refl
not-false {b = false} e = cc

running-apart : (request : HandLifecycle) → is_running request ≡ true → is_connected request ≡ false
running-apart running e = refl
running-apart connected e = cc
running-apart disconnected e = refl
running-apart stopped e = refl
running-apart faulted e = refl

module _ {doubles : Doubles} where
  -- The state that a call returns.
  pub record Keeps (r : Hand doubles × ErrorCode) : Type 0 where
    pub kept : IsConsistent r.0

  pub keeps : {h : Hand doubles} {code : ErrorCode} → IsConsistent h → Keeps (h, code)
  keeps c = record { kept = c }

  -- Consistent, with a thread.
  abbrev pub Attached : Hand doubles → Type 0
  Attached h = IsConsistent h × (h.rt_thread ≡ true)

  -- A store of Running or Stopped, where a thread runs.
  pub asks-Attached :
      (h : Hand doubles) (request : HandLifecycle)
      → (is_running request || is_stopped request) ≡ true
      → Attached h
      → Attached (store_requested request h)
  unfolding store_requested
  asks-Attached h request e (c, up) = ground arith

  pub idles-Attached : (h : Hand doubles) → Attached h → Attached (reset_command_to_idle h)
  unfolding reset_command_to_idle stage
  idles-Attached h (c, up) = ground arith

  observes-Attached :
      (h : Hand doubles) (observed : HandLifecycle)
      → (is_running observed || is_stopped observed) ≡ true
      → is_connected h.core.requested_lifecycle ≡ false
      → Attached h
      → Attached (store_lifecycle observed h)
  unfolding store_lifecycle
  observes-Attached h observed e apart (c, up) = ground arith

  -- What a wait leaves, begun where a thread runs.
  pub waited-Attached :
      (target : HandLifecycle) (rounds : List (Round doubles)) (h : Hand doubles)
      → AllLoop rounds
      → Attached h
      → Attached (wait_observed target rounds h).0
  waited-Attached target rounds h fair (c, up) =
      let step = wait_observed-ByLoop target rounds h fair in
      (ByLoop-IsConsistent h _ c up step, step.thread ∙ up)

  -- A call that needs a link passes its check only where a thread runs.
  needs_link :
      (action : HandAction) (h : Hand doubles)
      → IsConsistent h
      → is_linked_call action ≡ true
      → is_ok (check_allowed action true h) ≡ true
      → h.rt_thread ≡ true
  needs_link action h c linked passed =
      ground (arith, c, check_allowed-possible action true h c.request)

  pub stop_hand-IsConsistent :
      (world : World doubles) (h : Hand doubles)
      → IsFair world
      → IsConsistent h
      → Keeps (stop_hand world h)
  unfolding stop_hand
  stop_hand-IsConsistent world h fair c =
      if-split Keeps (not (is_ok (check_allowed stop true h))) _ _ (λ _. keeps c)
        λ passed.
          let up = needs_link stop h c refl (not-false passed) in
          let asked = reset_command_to_idle (store_requested stopped h) in
          let (seen, reached) = wait_observed stopped world.stop_rounds asked in
          let after =
            waited-Attached stopped world.stop_rounds asked fair.stops
              (idles-Attached _ (asks-Attached h stopped refl (c, up))) in
          let done = is_stopped h.core.requested_lifecycle && is_stopped h.core.lifecycle in
          let fault = check_allowed stop true seen in
          if-split Keeps done _ _ (λ _. keeps c)
            λ _.
              if-split Keeps reached _ _ (λ _. keeps after.0)
                λ _.
                  if-split Keeps (is_faulted seen.core.lifecycle && not (is_ok fault)) _ _
                    (λ _. keeps after.0) (λ _. keeps after.0)

  request_control-Attached : (h : Hand doubles) → Attached h → Attached (request_control h).0
  unfolding request_control request_hold_pose store_requested reset_command_to_idle stage
  request_control-Attached h (c, up) = ground arith

  -- A request that was granted is for Running, and nothing but the loop follows it.
  request_control-running :
      (h : Hand doubles)
      → is_ok (request_control h).1 ≡ true
      → is_running (request_control h).0.core.requested_lifecycle ≡ true
  unfolding request_control store_requested
  request_control-running h e = ground arith

  enable_control-Keeps :
      (world : World doubles) (h : Hand doubles)
      → IsFair world
      → Attached h
      → Keeps (enable_control world h)
  unfolding enable_control
  enable_control-Keeps world h fair a =
      let (asked, code) = request_control h in
      let (seen, reached) = wait_observed running world.enable_rounds asked in
      let before = request_control-Attached h a in
      let after = waited-Attached running world.enable_rounds asked fair.enables before in
      let apart = λ (granted : not (is_ok code) ≡ false).
        (wait_observed-ByLoop running world.enable_rounds asked fair.enables).link
          (running-apart _ (request_control-running h (not-false granted))) in
      if-split Keeps (not (is_ok code)) _ _ (λ _. keeps before.0)
        λ granted.
          if-split Keeps reached _ _
            (λ _. keeps (observes-Attached seen running refl (apart granted) after).0)
            (λ _. keeps (idles-Attached _ (asks-Attached seen stopped refl after)).0)

  -- The stores of `start_homing` before its request.
  begins-Attached :
      (h : Hand doubles) (state : HomingState)
      → Attached h
      → Attached (record h { core = record h.core { homing_state = state } })
  begins-Attached h state (c, up) = ground arith

  requests-Attached :
      (h : Hand doubles)
      → Attached h
      → Attached
          (record h { core = record h.core { result_homing = false; request_homing = true } })
  requests-Attached h (c, up) = ground arith

  -- What `start_homing` returns: where it succeeds, a thread runs.
  pub record Starts (r : Hand doubles × ErrorCode) : Type 0 where
    pub kept : IsConsistent r.0
    pub thread : is_ok r.1 ≡ true → r.0.rt_thread ≡ true

  starts : {h : Hand doubles} {code : ErrorCode} → Attached h → Starts (h, code)
  starts (c, up) = record { kept = c; thread = λ _. up }

  pub start_homing-Starts : (h : Hand doubles) → IsConsistent h → Starts (start_homing h)
  unfolding start_homing
  start_homing-Starts h c =
      let begun =
        reset_command_to_idle (record h { core = record h.core { homing_state = in_progress } }) in
      if-split Starts (not (is_ok (check_allowed home true h))) _ _
        (λ refused. record { kept = c; thread = λ e. ground arith })
        λ passed.
          let up = needs_link home h c refl (not-false passed) in
          let asked =
            request_control-Attached begun
              (idles-Attached _ (begins-Attached h in_progress (c, up))) in
          if-split Starts (not (is_ok (request_control begun).1)) _ _ (λ _. starts asked)
            (λ _. starts (requests-Attached _ asked))

  abbrev pub KeepsIf : Option (Hand doubles × ErrorCode) → Type 0
  KeepsIf none = Unit {0}
  KeepsIf (some r) = Keeps r

  abbrev KeepsHand : Option (Hand doubles) → Type 0
  KeepsHand none = Unit {0}
  KeepsHand (some h) = IsConsistent h

  wait_homing-Keeps :
      (rounds : List (Round doubles)) (h : Hand doubles)
      → AllLoop rounds
      → Attached h
      → KeepsHand (wait_homing rounds h)
  unfolding wait_homing
  wait_homing-Keeps [] h fair (c, up) =
      if-split KeepsHand (still_homing h) none (some h) (λ _. tt) (λ _. c)
  wait_homing-Keeps (round ∷ rounds) h (between, pause, fair) (c, up) =
      let next = pause h in
      let rest =
        wait_homing-Keeps rounds (round.pause h) fair
          (ByLoop-IsConsistent h _ c up next, next.thread ∙ up) in
      if-split KeepsHand (still_homing h) (wait_homing rounds (round.pause h)) (some h) (λ _. rest)
        (λ _. c)

  answered-Keeps :
      (waited : Option (Hand doubles))
      → KeepsHand waited
      → KeepsIf (elim waited [ none ↦ none | some ended ↦ some (ended, homing_answer ended) ])
  answered-Keeps none k = tt
  answered-Keeps (some h) k = keeps k

  pub home_hand-Keeps :
      (world : World doubles) (h : Hand doubles)
      → IsFair world
      → IsConsistent h
      → KeepsIf (home_hand world h)
  unfolding home_hand
  home_hand-Keeps world h fair c =
      let start = start_homing-Starts h c in
      let (started, code) = start_homing h in
      if-split KeepsIf (not (is_ok code)) (some (started, code)) _ (λ _. keeps start.kept)
        λ ok. answered-Keeps (wait_homing world.homing_rounds started) (
          wait_homing-Keeps world.homing_rounds started fair.homings
            (start.kept, start.thread (not-false ok)))

  pub run_hand-Keeps :
      (world : World doubles) (h : Hand doubles)
      → IsFair world
      → IsConsistent h
      → KeepsIf (run_hand world h)
  unfolding run_hand
  run_hand-Keeps world h fair c =
      if-split KeepsIf (not (is_ok (check_allowed run true h))) _ _ (λ _. keeps c)
        λ passed.
          let up = needs_link run h c refl (not-false passed) in
          if-split KeepsIf (h.auto_home && not (is_homed h.core.homing_state)) _ _
            (λ _. home_hand-Keeps world h fair c)
            λ _.
              if-split KeepsIf
                (is_running h.core.requested_lifecycle && is_running h.core.lifecycle) _ _
                (λ _. keeps c) (λ _. enable_control-Keeps world h fair (c, up))
