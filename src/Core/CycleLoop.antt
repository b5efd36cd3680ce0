-- ===== src/Core/CycleLoop.antt =====
-- The control loop keeps to what the public calls rely on
-- (cpp/src/hand_core/threads/hand_core_control_thread.cpp).
use aidin_hand2_sdk.Base.{ℕ, ◌≡◌, refl, false, ap, ◌∙◌, not, ◌&&◌, if-split, if◌then◌else◌}
use aidin_hand2_sdk.Base.Arrays.{Array}
use aidin_hand2_sdk.Protocol.Observation.{ActuatorState, no_observation, no_actuator_health}
use aidin_hand2_sdk.Comms.Cycle.{read}
use aidin_hand2_sdk.Types.Lifecycle.{HandLifecycle, is_disconnected, is_running, is_faulted}
use aidin_hand2_sdk.Control.State.{HandCore}
use aidin_hand2_sdk.Control.Watch.{
  watch_link, watch_actuator_faults, watch_drive_state, watch_stop_verdict,
}
use aidin_hand2_sdk.Control.HomingWatch.{watch_homing}
use aidin_hand2_sdk.Control.Tactile
use aidin_hand2_sdk.Control.Tactile.{apply_tactile_bias}
use aidin_hand2_sdk.Control.Command.{Doubles, ControllerCommand, Controllers}
use aidin_hand2_sdk.Control.Output.{write_cycle, is_control_session}
use aidin_hand2_sdk.Core.State.{Hand, is_connected, stage}
use aidin_hand2_sdk.Core.Supervise.{LoopConfig, Rt}
use aidin_hand2_sdk.Core.Cycle.{
  CycleWorld, run_cycle, take_input, take_homing_request, take_hold_request, publish_hold,
  completes_homing, home_hold,
}
use aidin_hand2_sdk.Core.Loop.{ByLoop, is_unlinked}
use aidin_hand2_sdk.Core.CycleLaws.{
  CoreStep, CoreStep-refl, CoreStep-trans, apply_tactile_bias-CoreStep, watch_link-CoreStep,
  watch_actuator_faults-CoreStep, watch_drive_state-CoreStep, watch_stop_verdict-CoreStep,
  watch_homing-CoreStep, write_cycle-CoreStep,
}

module _ {doubles : Doubles} where
  -- The threads, the destroy gate and the two lifecycles stay.
  pub alike :
      (h h' : Hand doubles)
      → h'.rt_thread ≡ h.rt_thread
      → h'.event_logging_thread ≡ h.event_logging_thread
      → h'.request_destroy ≡ h.request_destroy
      → CoreStep h.core h'.core
      → ByLoop h h'
  alike h h' threads logs destroys step = record {
    thread = threads;
    logging = logs;
    destroy = destroys;
    ends = ap is_disconnected step.requested;
    request = λ e. ap is_faulted step.requested ∙ e;
    link = λ e. ap is_connected step.requested ∙ e;
    linked = step.linked;
  }

  -- An ordinary iteration: beside the threads and the destroy gate it leaves alone the request itself,
  -- which a retry does not, and a requested link that was observed is observed or faulted.
  pub record ByCycle (h h' : Hand doubles) : Type 0 where
    pub thread : h'.rt_thread ≡ h.rt_thread
    pub logging : h'.event_logging_thread ≡ h.event_logging_thread
    pub destroy : h'.request_destroy ≡ h.request_destroy
    pub core : CoreStep h.core h'.core

  by_core :
      (h h' : Hand doubles)
      → h'.rt_thread ≡ h.rt_thread
      → h'.event_logging_thread ≡ h.event_logging_thread
      → h'.request_destroy ≡ h.request_destroy
      → CoreStep h.core h'.core
      → ByCycle h h'
  by_core h h' threads logs destroys step = record {
    thread = threads;
    logging = logs;
    destroy = destroys;
    core = step;
  }

  ByCycle-refl : (h : Hand doubles) → ByCycle h h
  ByCycle-refl h = by_core h h refl refl refl (CoreStep-refl h.core)

  ByCycle-trans : (a b c : Hand doubles) → ByCycle a b → ByCycle b c → ByCycle a c
  ByCycle-trans a b c p q =
      by_core a c (q.thread ∙ p.thread) (q.logging ∙ p.logging) (q.destroy ∙ p.destroy)
        (CoreStep-trans a.core b.core c.core p.core q.core)

  -- Only the core changes, and by such a step.
  CoreStep-ByCycle :
      (h : Hand doubles) (core : HandCore (ControllerCommand doubles))
      → CoreStep h.core core
      → ByCycle h (record h { core = core })
  CoreStep-ByCycle h core step = by_core h _ refl refl refl step

  stage-ByCycle :
      (controller : ControllerCommand doubles) (h : Hand doubles) → ByCycle h (stage controller h)
  unfolding stage
  stage-ByCycle controller h =
      by_core h _ refl refl refl (record { requested = refl; linked = λ e. e })

  take_hold_request-ByCycle :
      (actuators : ActuatorState) (h : Hand doubles) → ByCycle h (take_hold_request actuators h)
  unfolding take_hold_request stage
  take_hold_request-ByCycle actuators h =
      if-split (ByCycle h) h.core.request_hold _ _
        (λ _. by_core h _ refl refl refl (record { requested = refl; linked = λ e. e }))
        (λ _. ByCycle-refl h)

  take_homing_request-ByCycle :
      (requested : HandLifecycle) (h : Hand doubles) → ByCycle h (take_homing_request requested h)
  unfolding take_homing_request
  take_homing_request-ByCycle requested h =
      if-split (ByCycle h) (not h.core.request_homing) _ _ (λ _. ByCycle-refl h)
        λ _.
          if-split (ByCycle h) (is_running requested) _ _
            (λ _. CoreStep-ByCycle h _ (record { requested = refl; linked = λ e. e }))
            (λ _. CoreStep-ByCycle h _ (record { requested = refl; linked = λ e. e }))

  publish_hold-ByCycle :
      (before after : HandCore (ControllerCommand doubles)) (h : Hand doubles)
      → CoreStep h.core after
      → ByCycle h (publish_hold before after h)
  unfolding publish_hold
  publish_hold-ByCycle before after h step =
      if-split (ByCycle h) (completes_homing before) _ _
        (λ _. ByCycle-trans h _ _ (CoreStep-ByCycle h after step) (stage-ByCycle home_hold _))
        (λ _. CoreStep-ByCycle h after step)

module _ {doubles : Doubles} {controllers : Controllers doubles}
    (fk : Array ℕ → Array doubles.Double) where
  take_input-ByCycle :
      (rt : Rt doubles controllers) (h : Hand doubles)
      → ByCycle h (take_input controllers fk rt h).1
  unfolding take_input
  take_input-ByCycle rt h =
      by_core h _ refl refl refl (record { requested = refl; linked = λ e. e })

  run_cycle-ByCycle :
      (config : LoopConfig) (world : CycleWorld) (observed : HandLifecycle)
      (rt : Rt doubles controllers) (h : Hand doubles)
      → ByCycle h (run_cycle controllers fk config world observed rt h).hand
  unfolding run_cycle
  run_cycle-ByCycle config world observed rt h =
      let cycle = rt.cycle_count in
      let (fed, input) = take_input controllers fk rt h in
      let begun = take_homing_request world.requested input in
      let seen = read world.abi world.arrived begun.core.comms no_observation no_actuator_health in
      let actuators = seen.hand_state.actuators in
      let read_core : HandCore (ControllerCommand doubles) = record begun.core {
        comms = seen.comms;
      } in
      let (biased, bias, tactile) =
        apply_tactile_bias begun.request_tactile_bias seen.hand_state.tactile fed.tactile_bias
          read_core cycle in
      let link = watch_link fed.loop biased observed cycle config.communication_loss_cycles in
      let (faults, warned) =
        watch_actuator_faults link.loop link.core seen.actuator_health link.observed cycle in
      let noted : Hand doubles = record begun {
        core = warned;
        request_tactile_bias = Tactile.none;
      } in
      let held = take_hold_request actuators noted in
      let out =
        write_cycle doubles controllers world.errno_abi world.requested world.latest
          fed.active_command actuators seen.actuator_health world.sends cycle held.core
          link.observed fed.controllers_state in
      let session = is_control_session world.requested link.observed in
      let told : HandCore (ControllerCommand doubles) = record out.core {
        check_communication = if session then link.receiving && out.write_ok else link.receiving;
      } in
      let judged = watch_drive_state link.receiving told in
      let (latched, confirmed) =
        watch_stop_verdict faults judged link.receiving cycle config.confirmation_window_cycles in
      let observes : CoreStep begun.core warned =
        CoreStep-trans _ read_core _ (record { requested = refl; linked = λ e. e })
          (CoreStep-trans _ biased _ (apply_tactile_bias-CoreStep _ _ _ read_core cycle) (
            CoreStep-trans _ link.core _ (watch_link-CoreStep _ biased _ _ _)
              (watch_actuator_faults-CoreStep _ link.core _ _ _))) in
      let judges : CoreStep held.core (watch_homing home_hold latched confirmed cycle).1 =
        CoreStep-trans _ out.core _
          (write_cycle-CoreStep doubles controllers _ _ _ _ _ _ _ _ held.core _ _)
          (CoreStep-trans _ told _ (record { requested = refl; linked = λ e. e })
            (CoreStep-trans _ judged _ (watch_drive_state-CoreStep _ told) (
              CoreStep-trans _ confirmed _ (watch_stop_verdict-CoreStep _ judged _ _ _)
                (watch_homing-CoreStep home_hold _ confirmed _)))) in
      ByCycle-trans h input _ (take_input-ByCycle rt h) (
        ByCycle-trans input begun _ (take_homing_request-ByCycle _ input) (
          ByCycle-trans begun noted _ (by_core begun _ refl refl refl observes) (
            ByCycle-trans noted held _ (take_hold_request-ByCycle actuators noted)
              (publish_hold-ByCycle confirmed _ held judges))))

  -- An ordinary iteration of the loop, whatever it meets, leaves alone the threads, the destroy gate
  -- and the request, so that a stop() stays requested, and a requested link that was observed is still
  -- observed after it, or faulted; in particular it keeps to `ByLoop`, on which the public calls rely.
  pub run_cycle-ByLoop :
      (config : LoopConfig) (world : CycleWorld) (observed : HandLifecycle)
      (rt : Rt doubles controllers) (h : Hand doubles)
      → let after = (run_cycle controllers fk config world observed rt h).hand in
        ByLoop h after
        × (after.core.requested_lifecycle ≡ h.core.requested_lifecycle)
        × (after.rt_thread ≡ h.rt_thread)
        × (after.event_logging_thread ≡ h.event_logging_thread)
        × (after.request_destroy ≡ h.request_destroy)
        × (is_unlinked h ≡ false → is_unlinked after ≡ false)
  run_cycle-ByLoop config world observed rt h =
      let step = run_cycle-ByCycle config world observed rt h in
      (
        alike h _ step.thread step.logging step.destroy step.core,
        step.core.requested,
        step.thread,
        step.logging,
        step.destroy,
        step.core.linked,
      )
