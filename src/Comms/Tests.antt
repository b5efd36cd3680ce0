-- ===== src/Comms/Tests.antt =====
-- A session of the left hand, whose actuator 15 is disabled.
use aidin_hand2_sdk.Base.{◌≡◌, refl, true, false, ◌==◌, if◌then◌else◌, List, [], ◌∷◌, some, arith}
use aidin_hand2_sdk.Base.Arrays.{fill}
use aidin_hand2_sdk.Base.Bits.{is_set}
use aidin_hand2_sdk.Base.Lists.{length}
use aidin_hand2_sdk.Protocol.Ids.{CanFrame, no_frame, left}
use aidin_hand2_sdk.Protocol.Codec.{decode, decode_id, decode_finger, decode_palm, decode_command}
use aidin_hand2_sdk.Protocol.Tests.{linux}
use aidin_hand2_sdk.Comms.Session.{
  HandComms, Bus, new_comms, disable_each, reset_session, connect, resolve,
}
use aidin_hand2_sdk.Comms.Cycle.{Sends}
use aidin_hand2_sdk.Comms.Silence.{silence-length, after_reads, after_read, hears, all_quiet}
use aidin_hand2_sdk.Comms.Connect.{connect-is_free, is_free_bus}
use aidin_hand2_sdk.Types.Error.{is_ok}

abbrev closed : HandComms
closed = new_comms (some "can0") left (15 ∷ 16 ∷ 4294967295 ∷ [])

abbrev opened : HandComms
opened = reset_session linux closed

abbrev all_sent : Sends
all_sent = record { accepted = fill true; errno = 0 }

opened_checks :
    (opened.is_connected ≡ true)
    × (closed.is_connected ≡ false)
    × (opened.actuator_disabled 15 ≡ true)
    × (opened.actuator_disabled 0 ≡ false)
unfolding reset_session new_comms disable_each
opened_checks = (refl, refl, refl, refl)

-- A velocity frame, and a command of another master.
abbrev velocity : CanFrame
velocity = record no_frame { can_id = 0x222; len = 64 }

abbrev foreign : CanFrame
foreign = record no_frame { can_id = 0x211; len = 64 }

abbrev quiet_cycles : List (List CanFrame)
quiet_cycles = [] ∷ (foreign ∷ []) ∷ []

heard_checks :
    (hears linux opened.ids (velocity ∷ []) ≡ true)
    × (all_quiet linux opened.ids quiet_cycles ≡ true)
unfolding reset_session new_comms is_set decode decode_id decode_finger decode_palm decode_command
heard_checks = (refl, refl)

silence-length_example :
    (after_reads linux quiet_cycles
      (after_read linux (velocity ∷ []) opened)).cycles_since_last_frame
    ≡ length quiet_cycles
silence-length_example =
    silence-length linux (velocity ∷ []) quiet_cycles opened opened_checks.0 heard_checks.0
      heard_checks.1 (omega arith)

-- A bus on which another master speaks in the last round of the probe.
abbrev busy_bus : Bus
busy_bus name = record {
  opens = true;
  takes_filters = true;
  takes_error_mask = true;
  observed = λ k. [];
  probed = λ k. if k == 14 then foreign ∷ [] else [];
}

connect-is_free_example :
    (is_ok (connect linux busy_bus [] closed).1
      ≡ is_free_bus linux closed.ids busy_bus (resolve linux busy_bus [] closed))
    × ((connect linux busy_bus [] closed).0.is_connected
        ≡ is_ok (connect linux busy_bus [] closed).1)
connect-is_free_example = connect-is_free linux busy_bus [] closed opened_checks.1
