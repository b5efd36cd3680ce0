-- ===== src/Homing/Edges.antt =====
-- What a successful homing saw: the rising edge of status bit 12 on every actuator that took part.
use aidin_hand2_sdk.Base.{ℕ, ◌≡◌, ◌⊎◌, Bool, true, false, not, ◌&&◌, ◌||◌, List, [], ◌∷◌}
use aidin_hand2_sdk.Base.Arrays.{Array}
use aidin_hand2_sdk.Base.Bits.{is_set}
use aidin_hand2_sdk.Cia402.{homing_attained, homing_error}
use aidin_hand2_sdk.Protocol.Frames.{StateFrames, CommandFrames}
use aidin_hand2_sdk.Homing.Sequence.{
  HomingSequence, in_progress, succeeded, enabling, trigger_wait, all_attained, any_present,
}
use aidin_hand2_sdk.Homing.Run.{Cycle}

-- Bit 12 clear, and bit 12 set with bit 13 clear, in the frames of one cycle.
abbrev pub running_in : ℕ → Cycle → Bool
running_in i (rx, out) = not (is_set (rx.status_word i) homing_attained)

abbrev pub attained_in : ℕ → Cycle → Bool
attained_in i (rx, out) =
    is_set (rx.status_word i) homing_attained && not (is_set (rx.status_word i) homing_error)

pub attained_later : ℕ → List Cycle → Bool
attained_later i [] = false
attained_later i (c ∷ cs) = attained_in i c || attained_later i cs

-- Some cycle shows bit 12 clear and a later one shows it set without an error.
pub rises : ℕ → List Cycle → Bool
rises i [] = false
rises i (c ∷ cs) = (running_in i c && attained_later i cs) || rises i cs

leads : Bool → Bool → Bool
leads a b = not a || b

module _ (i : ℕ) (rx : StateFrames) (out : CommandFrames) (s : HomingSequence) where
  -- How a cycle moves the two latches of actuator i.
  abbrev Latched : HomingSequence → Type 0
  Latched t =
      (leads (t.attained i) (s.attained i || (s.in_progress_seen i && attained_in i (rx, out)))
        ≡ true)
      × (leads (t.in_progress_seen i) (s.in_progress_seen i || running_in i (rx, out)) ≡ true)

-- What holds of a started sequence between two cycles, for each actuator i.
pub record Consistent (mask : Array Bool) (i : ℕ) (s : HomingSequence) : Type 0 where
  pub running : s.active ≡ true → s.outcome ≡ in_progress
  pub took_part : (s.stage ≡ enabling) ⊎ (any_present s.present ≡ true)
  pub success : s.outcome ≡ succeeded → (s.stage ≡ trigger_wait) × (all_attained s ≡ true)
  pub masked : s.disabled i ≡ mask i
  pub not_disabled : s.present i ≡ true → mask i ≡ false
