-- ===== src/Core/Loop.antt =====
-- What the public calls of `HandCore` (cpp/src/hand_core/hand_core.cpp) may rely on: the effect of the
-- control loop between two accesses of a call, and what the waits make of it.
use aidin_hand2_sdk.Base.{
  ◌≡◌, refl, sym, ◌∙◌, Bool, true, false, not, ◌&&◌, arith, if-split, List, [], ◌∷◌,
}
use aidin_hand2_sdk.Types.Lifecycle.{HandLifecycle, disconnected, is_disconnected, is_faulted}
use aidin_hand2_sdk.Control.Command.{Doubles}
use aidin_hand2_sdk.Core.State.{
  Hand, Round, World, is_connected, same, store_requested, store_lifecycle,
}
use aidin_hand2_sdk.Core.Waits.{wait_observed, wait_first_frame, stop_control_loop}

-- A link that is requested and neither observed nor faulted.
abbrev pub is_unlinked_pair : HandLifecycle → HandLifecycle → Bool
is_unlinked_pair requested observed =
    is_connected requested && not (is_connected observed) && not (is_faulted observed)

module _ {doubles : Doubles} where
  abbrev pub is_unlinked : Hand doubles → Bool
  is_unlinked h = is_unlinked_pair h.core.requested_lifecycle h.core.lifecycle

  -- The loop leaves alone what belongs to the user's thread. It may resume Running by itself, but
  -- neither withdraws nor makes the request to end it, and never requests Connected or Faulted.
  pub record ByLoop (h h' : Hand doubles) : Type 0 where
    pub thread : h'.rt_thread ≡ h.rt_thread
    pub logging : h'.event_logging_thread ≡ h.event_logging_thread
    pub destroy : h'.request_destroy ≡ h.request_destroy
    pub ends :
        is_disconnected h'.core.requested_lifecycle ≡ is_disconnected h.core.requested_lifecycle
    pub request :
        is_faulted h.core.requested_lifecycle ≡ false
        → is_faulted h'.core.requested_lifecycle ≡ false
    pub link :
        is_connected h.core.requested_lifecycle ≡ false
        → is_connected h'.core.requested_lifecycle ≡ false
    pub linked : is_unlinked h ≡ false → is_unlinked h' ≡ false

  pub ByLoop-refl : (h : Hand doubles) → ByLoop h h
  ByLoop-refl h = record {
    thread = refl;
    logging = refl;
    destroy = refl;
    ends = refl;
    request = λ e. e;
    link = λ e. e;
    linked = λ e. e;
  }

  pub ByLoop-trans : (a b c : Hand doubles) → ByLoop a b → ByLoop b c → ByLoop a c
  ByLoop-trans a b c p q = record {
    thread = q.thread ∙ p.thread;
    logging = q.logging ∙ p.logging;
    destroy = q.destroy ∙ p.destroy;
    ends = q.ends ∙ p.ends;
    request = λ e. q.request (p.request e);
    link = λ e. q.link (p.link e);
    linked = λ e. q.linked (p.linked e);
  }

  abbrev pub IsLoop : (Hand doubles → Hand doubles) → Type 0
  IsLoop act = (h : Hand doubles) → ByLoop h (act h)

  abbrev pub AllLoop : List (Round doubles) → Type 0
  AllLoop [] = Unit {0}
  AllLoop (round ∷ rounds) = IsLoop round.between × IsLoop round.pause × AllLoop rounds

  -- Whatever happens while a call waits is done by the loop.
  pub record IsFair (world : World doubles) : Type 0 where
    pub ending : IsLoop world.ending
    pub frames : AllLoop world.frame_rounds
    pub enables : AllLoop world.enable_rounds
    pub stops : AllLoop world.stop_rounds
    pub homings : AllLoop world.homing_rounds

  abbrev Later : Hand doubles → Hand doubles × Bool → Type 0
  Later h r = ByLoop h r.0

  pub wait_observed-ByLoop :
      (target : HandLifecycle) (rounds : List (Round doubles)) (h : Hand doubles)
      → AllLoop rounds
      → ByLoop h (wait_observed target rounds h).0
  unfolding wait_observed
  wait_observed-ByLoop target [] h fair = ByLoop-refl h
  wait_observed-ByLoop target (round ∷ rounds) h (between, pause, fair) =
      let seen = round.between h in
      let rest = wait_observed-ByLoop target rounds (round.pause seen) fair in
      let later = ByLoop-trans seen _ _ (pause seen) rest in
      if-split (Later h) (is_faulted h.core.lifecycle) _ _ (λ _. between h)
        (λ _.
          if-split (Later h) (same seen.core.lifecycle target) _ _ (λ _. between h)
            (λ _. ByLoop-trans h seen _ (between h) later))

  abbrev pub Agrees : HandLifecycle → Hand doubles × Bool → Type 0
  Agrees target r = r.1 ≡ same r.0.core.lifecycle target

  pub wait_observed-target :
      (target : HandLifecycle) (rounds : List (Round doubles)) (h : Hand doubles)
      → Agrees target (wait_observed target rounds h)
  unfolding wait_observed
  wait_observed-target target [] h = refl
  wait_observed-target target (round ∷ rounds) h =
      let seen = round.between h in
      let rest = wait_observed-target target rounds (round.pause seen) in
      if-split (Agrees target) (is_faulted h.core.lifecycle) _ _ (λ _. refl)
        (λ _.
          if-split (Agrees target) (same seen.core.lifecycle target) _ _ (λ e. sym e) (λ _. rest))

  pub wait_first_frame-ByLoop :
      (rounds : List (Round doubles)) (h : Hand doubles)
      → AllLoop rounds
      → ByLoop h (wait_first_frame rounds h).0
  unfolding wait_first_frame
  wait_first_frame-ByLoop [] h fair = ByLoop-refl h
  wait_first_frame-ByLoop (round ∷ rounds) h (between, pause, fair) =
      let rest = wait_first_frame-ByLoop rounds (round.pause h) fair in
      if-split (Later h) h.core.check_first_frame _ _ (λ _. ByLoop-refl h)
        (λ _. ByLoop-trans h _ _ (pause h) rest)

  pub record Ended (h h' : Hand doubles) : Type 0 where
    pub thread : h'.rt_thread ≡ false
    pub requested : is_disconnected h'.core.requested_lifecycle ≡ true
    pub observed : h'.core.lifecycle ≡ disconnected
    pub destroy : h'.request_destroy ≡ h.request_destroy

  pub stop_control_loop-Ended :
      (world : World doubles) (h : Hand doubles)
      → IsFair world
      → Ended h (stop_control_loop world h)
  unfolding stop_control_loop store_requested store_lifecycle
  stop_control_loop-Ended world h fair =
      let end = fair.ending (store_requested disconnected h) in ground (arith, end)
