-- ===== src/Control/Faults.antt =====
-- The fault events of `watch_actuator_faults`.
-- (cpp/src/hand_core/threads/hand_core_control_thread.cpp)
use aidin_hand2_sdk.Base.{
  ℕ, zero, suc, ◌+◌, ◌≤◌, ◌<◌, ◌≡◌, refl, true, not, ◌&&◌, ◌==◌, ltb, if◌then◌else◌, arith,
  Bool-cases, inl, inr,
}
use aidin_hand2_sdk.Base.Arrays.{set}
use aidin_hand2_sdk.Protocol.Frames.{actuator_count}
use aidin_hand2_sdk.Protocol.Observation.{ActuatorHealth}
use aidin_hand2_sdk.Types.Lifecycle.{HandLifecycle}
use aidin_hand2_sdk.Control.State.{HandCore, LoopState, push_event}
use aidin_hand2_sdk.Control.Watch.{watch_faults_from, watch_actuator_faults, fault_event}

module _ {Command : Type 0} (health : ActuatorHealth) (lifecycle : HandLifecycle) (cycle : ℕ) where
  -- The faults that the loop remembers after its pass over n actuators from i on.
  remembered :
      (n i : ℕ) (loop : LoopState) (core : HandCore Command) (k : ℕ)
      → (watch_faults_from n i loop core health lifecycle cycle).0.previous_fault k
        ≡ (if not (ltb k i) && ltb k (i + n) then health.fault k else loop.previous_fault k)
  unfolding watch_faults_from
  remembered zero i loop core k = ground arith
  remembered (suc n) i loop core k = elim (Bool-cases (health.fault i == loop.previous_fault i)) [
    | inl e ↦ ground (arith, remembered n (i + 1) loop core k)
    | inr e ↦ ground (
      arith,
      remembered n (i + 1)
          (record loop { previous_fault = set loop.previous_fault i (health.fault i) })
          (push_event (fault_event i (health.fault i) lifecycle cycle) core) k,
    )
  ]

  -- A pass that finds no change does nothing.
  no_change :
      (n i : ℕ) (loop : LoopState) (core : HandCore Command)
      → ((k : ℕ) → i ≤ k → k < i + n → loop.previous_fault k ≡ health.fault k)
      → watch_faults_from n i loop core health lifecycle cycle ≡ (loop, core)
  unfolding watch_faults_from
  no_change zero i loop core h = refl
  no_change (suc n) i loop core h =
      let e : (health.fault i == loop.previous_fault i) ≡ true =
        ground (arith, h i (omega arith) (omega arith)) in
      rw e (no_change n (i + 1) loop core (λ k a b. h k (omega arith) (omega arith)))

-- One call of `watch_actuator_faults` leaves every actuator's fault remembered, so a second call that
-- sees the same faults pushes no event and changes nothing, in whatever cycle and lifecycle.
pub watch_actuator_faults-once :
    {Command : Type 0} (loop : LoopState) (core : HandCore Command) (health : ActuatorHealth)
    (lifecycle lifecycle' : HandLifecycle) (cycle cycle' : ℕ)
    → let first = watch_actuator_faults loop core health lifecycle cycle in
      watch_actuator_faults first.0 first.1 health lifecycle' cycle' ≡ first
unfolding watch_actuator_faults
watch_actuator_faults-once loop core health lifecycle lifecycle' cycle cycle' =
    no_change health lifecycle' cycle' actuator_count 0 _ _
      (λ k a b. ground (arith, remembered health lifecycle cycle actuator_count 0 loop core k))
