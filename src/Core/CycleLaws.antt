-- ===== src/Core/CycleLaws.antt =====
-- What an iteration of the control loop does to the two lifecycles
-- (cpp/src/hand_core/threads/hand_core_control_thread.cpp): the request is the user's, and a link that
-- was observed stays observed or faults.
use aidin_hand2_sdk.Base.{
  ℕ, zero, suc, ◌+◌, ◌≡◌, refl, ◌∙◌, Bool, false, not, ◌||◌, ◌==◌, arith, if-split, if◌then◌else◌,
}
use aidin_hand2_sdk.Base.Arrays
use aidin_hand2_sdk.Protocol.Frames.{actuator_count}
use aidin_hand2_sdk.StopConfirmation.{StopConfirmation}
use aidin_hand2_sdk.Homing.Step.{is_succeeded}
use aidin_hand2_sdk.Protocol.Observation.{ActuatorHealth, ActuatorState, TactileState}
use aidin_hand2_sdk.Comms.Cycle.{Sends}
use aidin_hand2_sdk.Types.Lifecycle.{HandLifecycle}
use aidin_hand2_sdk.Types.Events.{RealtimeEvent}
use aidin_hand2_sdk.Control.State.{HandCore, LoopState, push_event}
use aidin_hand2_sdk.Control.Watch.{
  watch_link, report_first_frame, enter_silence, leave_silence, watch_actuator_faults,
  watch_faults_from, watch_drive_state, watch_stop_verdict, begin_latch, judge_latch,
  report_verdict, fault_event, is_latched,
}
use aidin_hand2_sdk.Control.HomingWatch.{
  watch_homing, watch_phase, complete_homing, report_failed, failure_event,
}
use aidin_hand2_sdk.Control.Tactile.{
  TactileBiasRequest, none, set, reset, apply_tactile_bias, report_bias,
}
use aidin_hand2_sdk.Control.Command.{Doubles, Controllers, HandCommand}
use aidin_hand2_sdk.Control.Output.{ErrnoAbi, write_cycle, judge_write}
use aidin_hand2_sdk.Core.Loop.{is_unlinked_pair}

module _ {Command : Type 0} where
  abbrev pub is_unlinked_core : HandCore Command → Bool
  is_unlinked_core core = is_unlinked_pair core.requested_lifecycle core.lifecycle

  pub record CoreStep (core core' : HandCore Command) : Type 0 where
    pub requested : core'.requested_lifecycle ≡ core.requested_lifecycle
    pub linked : is_unlinked_core core ≡ false → is_unlinked_core core' ≡ false

  pub CoreStep-refl : (core : HandCore Command) → CoreStep core core
  CoreStep-refl core = record { requested = refl; linked = λ e. e }

  pub CoreStep-trans : (a b c : HandCore Command) → CoreStep a b → CoreStep b c → CoreStep a c
  CoreStep-trans a b c p q = record {
    requested = q.requested ∙ p.requested;
    linked = λ e. q.linked (p.linked e);
  }

  maybe-CoreStep :
      (b : Bool) (core x y : HandCore Command)
      → CoreStep core x
      → CoreStep core y
      → CoreStep core (if b then x else y)
  maybe-CoreStep b core x y p q = if-split (CoreStep core) b x y (λ _. p) (λ _. q)

  push_event-CoreStep :
      (event : RealtimeEvent) (core : HandCore Command) → CoreStep core (push_event event core)
  unfolding push_event
  push_event-CoreStep event core = record { requested = refl; linked = λ e. e }

  pub apply_tactile_bias-CoreStep :
      (request : TactileBiasRequest) (raw bias : TactileState) (core : HandCore Command) (cycle : ℕ)
      → CoreStep core (apply_tactile_bias request raw bias core cycle).0
  unfolding apply_tactile_bias report_bias
  apply_tactile_bias-CoreStep none raw bias core cycle = CoreStep-refl core
  apply_tactile_bias-CoreStep set raw bias core cycle = push_event-CoreStep _ core
  apply_tactile_bias-CoreStep reset raw bias core cycle = push_event-CoreStep _ core

  pub watch_link-CoreStep :
      (loop : LoopState) (core : HandCore Command) (observed : HandLifecycle) (cycle loss : ℕ)
      → CoreStep core (watch_link loop core observed cycle loss).core
  unfolding watch_link report_first_frame enter_silence leave_silence push_event
  watch_link-CoreStep loop core observed cycle loss = ground arith

  watch_faults_from-CoreStep :
      (n i : ℕ) (loop : LoopState) (core : HandCore Command) (health : ActuatorHealth)
      (lifecycle : HandLifecycle) (cycle : ℕ)
      → CoreStep core (watch_faults_from n i loop core health lifecycle cycle).1
  unfolding watch_faults_from
  watch_faults_from-CoreStep zero i loop core health lifecycle cycle = CoreStep-refl core
  watch_faults_from-CoreStep (suc n) i loop core health lifecycle cycle =
      let same = health.fault i == loop.previous_fault i in
      let event = fault_event i (health.fault i) lifecycle cycle in
      CoreStep-trans core (if same then core else push_event event core) _
        (maybe-CoreStep same core core (push_event event core) (CoreStep-refl core)
          (push_event-CoreStep event core))
        (watch_faults_from-CoreStep n (i + 1)
          (if same
            then loop
            else record loop { previous_fault = Arrays.set loop.previous_fault i (health.fault i) })
          _ health lifecycle cycle)

  pub watch_actuator_faults-CoreStep :
      (loop : LoopState) (core : HandCore Command) (health : ActuatorHealth)
      (lifecycle : HandLifecycle) (cycle : ℕ)
      → CoreStep core (watch_actuator_faults loop core health lifecycle cycle).1
  unfolding watch_actuator_faults
  watch_actuator_faults-CoreStep loop core health lifecycle cycle =
      watch_faults_from-CoreStep actuator_count 0 loop core health lifecycle cycle

  pub watch_drive_state-CoreStep :
      (receiving : Bool) (core : HandCore Command)
      → CoreStep core (watch_drive_state receiving core)
  unfolding watch_drive_state
  watch_drive_state-CoreStep receiving core = ground arith

  begin_latch-CoreStep :
      (loop : LoopState) (core : HandCore Command) → CoreStep core (begin_latch loop core).1
  unfolding begin_latch
  begin_latch-CoreStep loop core = ground arith

  report_verdict-CoreStep :
      (prev next : StopConfirmation) (cycle : ℕ) (loop : LoopState) (core : HandCore Command)
      → CoreStep core (report_verdict prev next cycle loop core).1
  unfolding report_verdict push_event
  report_verdict-CoreStep prev next cycle loop core = ground arith

  judge_latch-CoreStep :
      (receiving : Bool) (cycle window : ℕ) (loop : LoopState) (core : HandCore Command)
      → CoreStep core (judge_latch receiving cycle window loop core).1
  unfolding judge_latch
  judge_latch-CoreStep receiving cycle window loop core =
      CoreStep-trans core _ _ (record { requested = refl; linked = λ e. e })
        (report_verdict-CoreStep _ _ cycle _ _)

  pub watch_stop_verdict-CoreStep :
      (loop : LoopState) (core : HandCore Command) (receiving : Bool) (cycle window : ℕ)
      → CoreStep core (watch_stop_verdict loop core receiving cycle window).1
  unfolding watch_stop_verdict
  watch_stop_verdict-CoreStep loop core receiving cycle window =
      let begun = begin_latch loop core in
      if-split (λ (r : LoopState × HandCore Command). CoreStep core r.1) (is_latched core) _ _
        (λ _.
          CoreStep-trans core begun.1 _ (begin_latch-CoreStep loop core)
            (judge_latch-CoreStep receiving cycle window begun.0 begun.1))
        (λ _. CoreStep-refl core)

  report_failed-CoreStep :
      (n i cycle : ℕ) (core : HandCore Command) → CoreStep core (report_failed n i cycle core)
  unfolding report_failed
  report_failed-CoreStep zero i cycle core = CoreStep-refl core
  report_failed-CoreStep (suc n) i cycle core =
      let event = failure_event core.comms.homing cycle i in
      let blamed = core.comms.homing.failed i in
      CoreStep-trans core (if blamed then push_event event core else core) _
        (maybe-CoreStep blamed core (push_event event core) core (push_event-CoreStep event core)
          (CoreStep-refl core))
        (report_failed-CoreStep n (i + 1) cycle _)

  watch_phase-CoreStep :
      (loop : LoopState) (core : HandCore Command) (cycle : ℕ)
      → CoreStep core (watch_phase loop core cycle).1
  unfolding watch_phase push_event
  watch_phase-CoreStep loop core cycle = ground arith

  complete_homing-CoreStep :
      (home_hold : Command) (cycle : ℕ) (core : HandCore Command)
      → CoreStep core (complete_homing home_hold cycle core)
  unfolding complete_homing push_event
  complete_homing-CoreStep home_hold cycle core =
      if-split (CoreStep core) (is_succeeded core.comms.homing.outcome) _ _
        (λ _. record { requested = refl; linked = λ e. e })
        (λ _.
          CoreStep-trans core _ _ (record { requested = refl; linked = λ e. e })
            (report_failed-CoreStep actuator_count 0 cycle _))

  pub watch_homing-CoreStep :
      (home_hold : Command) (loop : LoopState) (core : HandCore Command) (cycle : ℕ)
      → CoreStep core (watch_homing home_hold loop core cycle).1
  unfolding watch_homing watch_phase complete_homing
  watch_homing-CoreStep home_hold loop core cycle =
      let phase = watch_phase loop core cycle in
      if-split (λ (r : LoopState × HandCore Command). CoreStep core r.1)
        (not core.active_homing || core.comms.homing.active) _ _
        (λ _. watch_phase-CoreStep loop core cycle)
        (λ _.
          CoreStep-trans core phase.1 _ (watch_phase-CoreStep loop core cycle)
            (complete_homing-CoreStep home_hold cycle phase.1))

  pub write_cycle-CoreStep :
      (doubles : Doubles) (controllers : Controllers doubles) (abi : ErrnoAbi)
      (requested latest : HandLifecycle) (active : HandCommand doubles) (actuators : ActuatorState)
      (health : ActuatorHealth) (sends : Sends) (cycle : ℕ) (core : HandCore Command)
      (observed : HandLifecycle) (s : controllers.State)
      → CoreStep core
          (write_cycle doubles controllers abi requested latest active actuators health sends cycle
            core observed s).core
  unfolding write_cycle judge_write push_event
  write_cycle-CoreStep doubles controllers abi requested latest active actuators health sends cycle
        core observed s =
      ground arith
