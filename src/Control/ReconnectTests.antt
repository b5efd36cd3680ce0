-- ===== src/Control/ReconnectTests.antt =====
-- A reconnect to a quiet bus on which the hand answers in the third read.
use aidin_hand2_sdk.Base.{ℕ, true, ◌==◌, if◌then◌else◌, List, [], ◌∷◌}
use aidin_hand2_sdk.Protocol.Ids.{CanFrame, no_frame}
use aidin_hand2_sdk.Comms.Session.{Bus}

abbrev pub quiet_bus : Bus
quiet_bus name = record {
  opens = true;
  takes_filters = true;
  takes_error_mask = true;
  observed = λ k. [];
  probed = λ k. [];
}

abbrev answer : CanFrame
answer = record no_frame { can_id = 0x222; len = 64 }

abbrev pub third_read : ℕ → List CanFrame
third_read index = if index == 2 then answer ∷ [] else []
