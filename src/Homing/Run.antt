-- ===== src/Homing/Run.antt =====
-- The homing sequence over many cycles: `HandComms::write` (cpp/src/hand_core/comms/hand_comms.cpp)
-- steps it in every cycle in which it is active, with the frames received last.
use aidin_hand2_sdk.Base.{
  ◌≤◌, ◌<◌, ◌≡◌, refl, ◌⊎◌, inl, inr, Bool, true, false, if◌then◌else◌, arith, List, [], ◌∷◌,
}
use aidin_hand2_sdk.Base.Arrays.{Array}
use aidin_hand2_sdk.Base.Lists.{length}
use aidin_hand2_sdk.Protocol.Frames.{StateFrames, CommandFrames}
use aidin_hand2_sdk.Homing.Sequence.{HomingSequence, start}
use aidin_hand2_sdk.Homing.Step.{step}
use aidin_hand2_sdk.Homing.Bounds.{remaining, InBounds, ended, step-Progress}

-- What a cycle receives, and the command that the sequence overwrites.
abbrev pub Cycle : Type 0
Cycle = StateFrames × CommandFrames

unfoldable pub advance : Cycle → HomingSequence → HomingSequence
advance (rx, out) s = if s.active then (step rx out s).0 else s

unfoldable pub advance_all : List Cycle → HomingSequence → HomingSequence
advance_all [] s = s
advance_all (c ∷ cs) s = advance_all cs (advance c s)

pub advance-inactive : (c : Cycle) (s : HomingSequence) → s.active ≡ false → advance c s ≡ s
unfolding advance
advance-inactive c s h = ground arith

pub advance_all-inactive :
    (cs : List Cycle) (s : HomingSequence) → s.active ≡ false → advance_all cs s ≡ s
unfolding advance_all
advance_all-inactive [] s h = refl
advance_all-inactive (c ∷ cs) s h = simp (advance-inactive c s h) (advance_all-inactive cs s h)

pub advance-active :
    (rx : StateFrames) (out : CommandFrames) (s : HomingSequence)
    → s.active ≡ true
    → advance (rx, out) s ≡ (step rx out s).0
unfolding advance
advance-active rx out s h = ground arith

-- Running within its bounds, or ended.
abbrev RunsOrEnded : HomingSequence → Type 0
RunsOrEnded s = ((s.active ≡ true) × InBounds s) ⊎ ((s.active ≡ false) × (ended s.outcome ≡ true))

module _ (rx : StateFrames) (out : CommandFrames) (s : HomingSequence) where
  advance-RunsOrEnded :
      s.active ≡ true
      → InBounds s
      → RunsOrEnded (advance (rx, out) s)
        × ((remaining (advance (rx, out) s) < remaining s) ⊎ ((advance (rx, out) s).active ≡ false))
  advance-RunsOrEnded a b =
      simp (advance-active rx out s a) (ground (arith, step-Progress rx out s a b))

advance_all-ends :
    (cs : List Cycle) (s : HomingSequence)
    → RunsOrEnded s
    → (s.active ≡ true → remaining s ≤ length cs)
    → ((advance_all cs s).active ≡ false) × (ended (advance_all cs s).outcome ≡ true)
unfolding advance_all
advance_all-ends [] s (inl (a, b)) h = absurd (omega (arith, h a))
advance_all-ends [] s (inr q) h = q
advance_all-ends (c ∷ cs) s (inr q) h = simp (advance_all-inactive (c ∷ cs) s q.0) q
advance_all-ends ((rx, out) ∷ cs) s (inl (a, b)) h =
    let (q, r) = advance-RunsOrEnded rx out s a b in
    advance_all-ends cs (advance (rx, out) s) q (λ active. less active r)
  where
    less :
        (advance (rx, out) s).active ≡ true
        → (remaining (advance (rx, out) s) < remaining s) ⊎ ((advance (rx, out) s).active ≡ false)
        → remaining (advance (rx, out) s) ≤ length cs
    less active (inl r) = omega (arith, h a)
    less active (inr r) = cc

-- Whatever 11000 or more cycles receive after `start`, the sequence has ended by then, in an outcome
-- other than InProgress: with any mask of disabled actuators, and from any state before.
pub homing_ends :
    (mask : Array Bool) (s : HomingSequence) (cs : List Cycle)
    → 11000 ≤ length cs
    → ((advance_all cs (start mask s)).active ≡ false)
      × (ended (advance_all cs (start mask s)).outcome ≡ true)
unfolding start
homing_ends mask s cs h =
    advance_all-ends cs (start mask s) (inl (refl, omega arith)) (λ _. omega arith)
