-- ===== src/Control/Tactile.antt =====
-- `apply_tactile_bias`: a taxel is an int32_t bit pattern. What the user thread reads back of the
-- bias, through a realtime buffer, is the bias that is returned here.
-- (cpp/src/hand_core/threads/hand_core_control_thread.cpp)
use aidin_hand2_sdk.Base.{ℕ, false}
use aidin_hand2_sdk.Base.Arrays.{fill}
use aidin_hand2_sdk.Protocol.Codec.{sub32}
use aidin_hand2_sdk.Protocol.Observation.{TactileState}
use aidin_hand2_sdk.Types.Events.{tactile_bias_set, tactile_bias_reset}
use aidin_hand2_sdk.Control.State.{HandCore, push_event, hand_event}

pub data TactileBiasRequest : Type 0 where
  none set reset : TactileBiasRequest

-- `TactileState{}`.
abbrev pub no_bias : TactileState
no_bias = record { fingers = fill (fill 0); palm = fill 0 }

-- The bias that a cycle goes on with.
unfoldable pub take_bias : TactileBiasRequest → TactileState → TactileState → TactileState
take_bias none raw bias = bias
take_bias set raw bias = raw
take_bias reset raw bias = no_bias

unfoldable pub subtract_bias : TactileState → TactileState → TactileState
subtract_bias raw bias = record {
  fingers = λ finger taxel. sub32 (raw.fingers finger taxel) (bias.fingers finger taxel);
  palm = λ taxel. sub32 (raw.palm taxel) (bias.palm taxel);
}

module _ {Command : Type 0} where
  -- The event of a request that took effect.
  unfoldable pub report_bias : TactileBiasRequest → ℕ → HandCore Command → HandCore Command
  report_bias none cycle core = core
  report_bias set cycle core =
      push_event (hand_event tactile_bias_set cycle 0 0 core.lifecycle false) core
  report_bias reset cycle core =
      push_event (hand_event tactile_bias_reset cycle 0 0 core.lifecycle false) core

  -- The core, the bias kept, and the tactile values published.
  unfoldable pub apply_tactile_bias :
      TactileBiasRequest
      → TactileState
      → TactileState
      → HandCore Command
      → ℕ
      → HandCore Command × TactileState × TactileState
  apply_tactile_bias request raw bias core cycle =
      let taken = take_bias request raw bias in
      (report_bias request cycle core, taken, subtract_bias raw taken)
