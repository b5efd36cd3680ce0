-- ===== src/Control/Bias.antt =====
-- What `apply_tactile_bias` publishes.
-- (cpp/src/hand_core/threads/hand_core_control_thread.cpp)
use aidin_hand2_sdk.Base.{ℕ, ◌^◌, ◌<◌, ◌≡◌, refl, arith}
use aidin_hand2_sdk.Protocol.Codec.{sub32, add32}
use aidin_hand2_sdk.Protocol.Observation.{TactileState}
use aidin_hand2_sdk.Control.State.{HandCore}
use aidin_hand2_sdk.Control.Tactile.{
  TactileBiasRequest, none, set, reset, take_bias, subtract_bias, report_bias, apply_tactile_bias,
}

-- Every taxel is a 32-bit word.
pub record FitsTactile (t : TactileState) : Type 0 where
  pub finger_lt : (finger taxel : ℕ) → t.fingers finger taxel < 2 ^ 32
  pub palm_lt : (taxel : ℕ) → t.palm taxel < 2 ^ 32

sub32-add32 : (w b : ℕ) → w < 2 ^ 32 → b < 2 ^ 32 → add32 (sub32 w b) b ≡ w
sub32-add32 w b h k = omega arith

sub32_self : (w : ℕ) → w < 2 ^ 32 → sub32 w w ≡ 0
sub32_self w h = omega arith

sub32_zero : (w : ℕ) → w < 2 ^ 32 → sub32 w 0 ≡ w
sub32_zero w h = omega arith

-- For each taxel of a finger and of the palm: the bias that the cycle goes on with, added to what it
-- publishes, is what the sensor showed, also where the difference is negative or wraps; the cycle that
-- takes a set request publishes 0, one that takes a reset what the sensor showed, and one without a
-- request keeps the bias and pushes no event.
pub apply_tactile_bias-difference :
    {Command : Type 0} (request : TactileBiasRequest) (raw bias : TactileState)
    (core : HandCore Command) (cycle finger taxel : ℕ)
    → FitsTactile raw
    → FitsTactile bias
    → let (core', bias', shown) = apply_tactile_bias request raw bias core cycle in
      (add32 (shown.fingers finger taxel) (bias'.fingers finger taxel) ≡ raw.fingers finger taxel)
      × (add32 (shown.palm taxel) (bias'.palm taxel) ≡ raw.palm taxel)
      × (request ≡ set → (shown.fingers finger taxel ≡ 0) × (shown.palm taxel ≡ 0))
      × (request ≡ reset
          → (shown.fingers finger taxel ≡ raw.fingers finger taxel)
            × (shown.palm taxel ≡ raw.palm taxel))
      × (request ≡ none → (bias' ≡ bias) × (core'.event_ring ≡ core.event_ring))
unfolding apply_tactile_bias take_bias subtract_bias report_bias
apply_tactile_bias-difference none raw bias core cycle finger taxel h k = (
  sub32-add32 _ _ (h.finger_lt finger taxel) (k.finger_lt finger taxel),
  sub32-add32 _ _ (h.palm_lt taxel) (k.palm_lt taxel),
  λ e. cc,
  λ e. cc,
  λ e. (refl, refl),
)
apply_tactile_bias-difference set raw bias core cycle finger taxel h k = (
  sub32-add32 _ _ (h.finger_lt finger taxel) (h.finger_lt finger taxel),
  sub32-add32 _ _ (h.palm_lt taxel) (h.palm_lt taxel),
  λ e. (sub32_self _ (h.finger_lt finger taxel), sub32_self _ (h.palm_lt taxel)),
  λ e. cc,
  λ e. cc,
)
apply_tactile_bias-difference reset raw bias core cycle finger taxel h k = (
  sub32-add32 _ _ (h.finger_lt finger taxel) (omega arith),
  sub32-add32 _ _ (h.palm_lt taxel) (omega arith),
  λ e. cc,
  λ e. (sub32_zero _ (h.finger_lt finger taxel), sub32_zero _ (h.palm_lt taxel)),
  λ e. cc,
)
