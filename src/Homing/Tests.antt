-- ===== src/Homing/Tests.antt =====
-- Homing sequences on concrete received frames.
use aidin_hand2_sdk.Base.{ℕ, ◌≡◌, ◌⊎◌, true, false, ◌++◌, List, [], ◌∷◌, arith, if◌then◌else◌}
use aidin_hand2_sdk.Base.Arrays.{fill, any_below}
use aidin_hand2_sdk.Base.Lists.{replicate}
use aidin_hand2_sdk.Protocol.Frames.{no_state_frames, no_command_frames, actuator_count}
use aidin_hand2_sdk.Homing.Sequence.{HomingSequence, start, new_sequence, preload, preload_effort}
use aidin_hand2_sdk.Homing.Step.{step}
use aidin_hand2_sdk.Homing.Run.{Cycle, advance_all, homing_ends}
use aidin_hand2_sdk.Homing.Failure.{homing_culprits, has_failed}
use aidin_hand2_sdk.Homing.Bounds.{ended}
use aidin_hand2_sdk.Homing.Order.{step-order, Follows}
use aidin_hand2_sdk.Cia402.{enable}

abbrev receives : ℕ → Cycle
receives status = (record no_state_frames { status_word = fill status }, no_command_frames)

-- All sixteen come up, drop, come up again, and are pushed; bit 12 then falls and rises.
abbrev good_run : List Cycle
good_run =
    receives 0x27 ∷ receives 0x23 ∷ receives 0x27 ∷ replicate 3001 (receives 0x27)
    ++ receives 0x1027 ∷ []

abbrev good_end : HomingSequence
good_end = advance_all good_run (start (fill false) new_sequence)

-- Nothing answers.
abbrev dead_run : List Cycle
dead_run = replicate 2000 (receives 0x40)

abbrev dead_end : HomingSequence
dead_end = advance_all dead_run (start (fill false) new_sequence)

homing_culprits_example : any_below actuator_count dead_end.failed ≡ has_failed dead_end.outcome
homing_culprits_example = homing_culprits (fill false) new_sequence dead_run

abbrev quiet_run : List Cycle
quiet_run = replicate 11000 (receives 0x27)

homing_ends_example :
    ((advance_all quiet_run (start (fill false) new_sequence)).active ≡ false)
    × (ended (advance_all quiet_run (start (fill false) new_sequence)).outcome ≡ true)
homing_ends_example = homing_ends (fill false) new_sequence quiet_run (omega arith)

-- The last cycle of the preload.
abbrev pushing : HomingSequence
pushing = record new_sequence { active = true; stage = preload; stage_cycle = 1999 }

abbrev pushed : HomingSequence
pushed = (step no_state_frames no_command_frames pushing).0

step-order_example :
    ((pushed.stage ≡ preload) ⊎ Follows preload pushed.stage)
    × ((step no_state_frames no_command_frames pushing).2 ≡ enable)
    × ((step no_state_frames no_command_frames pushing).1.target_effort 3
        ≡ (if pushing.present 3 then preload_effort else 0))
    × ((step no_state_frames no_command_frames pushing).1.control_word 3 ≡ 0)
step-order_example = step-order no_state_frames no_command_frames pushing 3
