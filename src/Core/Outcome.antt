-- ===== src/Core/Outcome.antt =====
-- What `stop`, `disconnect` and `reconnect` of `HandCore` answer, on every path, and what they leave
-- behind (cpp/src/hand_core/hand_core.cpp).
use aidin_hand2_sdk.Base.{
  ◌≡◌, refl, sym, subst, ◌∙◌, ◌||◌, Bool, true, false, not, ◌&&◌, arith, if-split, List, [], ◌∷◌,
}
use aidin_hand2_sdk.Types.Error.{ErrorCode, is_ok}
use aidin_hand2_sdk.Types.Lifecycle.{HandLifecycle, stopped, is_stopped, is_running, is_faulted}
use aidin_hand2_sdk.Lifecycle.Action.{stop}
use aidin_hand2_sdk.Control.Command.{Doubles}
use aidin_hand2_sdk.Core.State.{
  Hand, Round, World, same, store_requested, reset_command_to_idle, stage, check_allowed,
}
use aidin_hand2_sdk.Core.Waits.{wait_observed}
use aidin_hand2_sdk.Core.Operation.{stop_hand, unconfirmed}
use aidin_hand2_sdk.Core.Loop.{wait_observed-target}

same-stopped : (observed : HandLifecycle) → same observed stopped ≡ is_stopped observed
same-stopped observed = ground arith

refused : (a b : Bool) → (a && not b) ≡ true → b ≡ false
refused a b e = ground arith

asks_stopped :
    (requested observed : HandLifecycle)
    → (is_stopped requested && is_stopped observed) ≡ true
    → requested ≡ stopped
asks_stopped requested observed e = ground arith

abbrev is_session : HandLifecycle → Bool
is_session request = is_stopped request || is_running request

module _ {doubles : Doubles} where
  -- What an ordinary cycle does, and a successful retry of the link does not: the request stays.
  abbrev pub IsSteady : (Hand doubles → Hand doubles) → Type 0
  IsSteady act = (h : Hand doubles) → (act h).core.requested_lifecycle ≡ h.core.requested_lifecycle

  abbrev pub AllSteady : List (Round doubles) → Type 0
  AllSteady [] = Unit {0}
  AllSteady (round ∷ rounds) = IsSteady round.between × IsSteady round.pause × AllSteady rounds

  abbrev Asked : HandLifecycle → Hand doubles × Bool → Type 0
  Asked request r = r.0.core.requested_lifecycle ≡ request

  wait_observed-steady :
      (target : HandLifecycle) (rounds : List (Round doubles)) (h : Hand doubles)
      → AllSteady rounds
      → Asked h.core.requested_lifecycle (wait_observed target rounds h)
  unfolding wait_observed
  wait_observed-steady target [] h steady = refl
  wait_observed-steady target (round ∷ rounds) h (between, pause, steady) =
      let seen = round.between h in
      let asked = Asked h.core.requested_lifecycle in
      let rest = wait_observed-steady target rounds (round.pause seen) steady in
      if-split asked (is_faulted h.core.lifecycle) _ _ (λ _. between h)
        λ _.
          if-split asked (same seen.core.lifecycle target) _ _ (λ _. between h)
            (λ _. rest ∙ pause seen ∙ between h)

  unconfirmed-is_error : (h : Hand doubles) → is_ok (unconfirmed h) ≡ false
  unfolding unconfirmed
  unconfirmed-is_error h = ground arith

  -- Of a stop that was let through, where `Request` is what is known of the request after it.
  record Stops (Request : HandLifecycle → Type 0) (r : Hand doubles × ErrorCode) : Type 0 where
    requested : Request r.0.core.requested_lifecycle
    confirmed : is_ok r.1 ≡ is_stopped r.0.core.lifecycle

  idle-requested :
      (request : HandLifecycle) (h : Hand doubles)
      → (reset_command_to_idle (store_requested request h)).core.requested_lifecycle ≡ request
  unfolding reset_command_to_idle stage store_requested
  idle-requested request h = refl

  -- The part of a stop behind its first guard; `waited` is about the request after the wait.
  allowed_stop-Stops :
      (Request : HandLifecycle → Type 0) (world : World doubles) (h : Hand doubles)
      → Request stopped
      → (let asked = reset_command_to_idle (store_requested stopped h) in
          Request (wait_observed stopped world.stop_rounds asked).0.core.requested_lifecycle)
      → is_ok (check_allowed stop true h) ≡ true
      → Stops Request (stop_hand world h)
  unfolding stop_hand
  allowed_stop-Stops Request world h already waited allowed =
      let asked = reset_command_to_idle (store_requested stopped h) in
      let (seen, reached) = wait_observed stopped world.stop_rounds asked in
      let answer =
        wait_observed-target stopped world.stop_rounds asked ∙ same-stopped seen.core.lifecycle in
      let fault = check_allowed stop true seen in
      if-split (Stops Request) (not (is_ok (check_allowed stop true h))) _ _ (λ no. cc)
        λ _.
          if-split (Stops Request)
            (is_stopped h.core.requested_lifecycle && is_stopped h.core.lifecycle) _ _
            (λ done. record {
              requested = subst Request (sym (asks_stopped _ _ done)) already;
              confirmed = ground arith;
            })
            λ _.
              if-split (Stops Request) reached _ _
                (λ e. record { requested = waited; confirmed = sym (sym answer ∙ e) })
                λ e.
                  if-split (Stops Request) (is_faulted seen.core.lifecycle && not (is_ok fault)) _ _
                    (λ f. record {
                      requested = waited;
                      confirmed = refused _ _ f ∙ sym (sym answer ∙ e);
                    })
                    (λ _. record {
                      requested = waited;
                      confirmed = unconfirmed-is_error seen ∙ sym (sym answer ∙ e);
                    })

  -- Where nothing changes the request during the wait, a stop that is let through leaves Stopped
  -- requested.
  stop_hand-requested :
      (world : World doubles) (h : Hand doubles)
      → AllSteady world.stop_rounds
      → is_ok (check_allowed stop true h) ≡ true
      → (stop_hand world h).0.core.requested_lifecycle ≡ stopped
  stop_hand-requested world h steady allowed =
      let asked = reset_command_to_idle (store_requested stopped h) in
      (allowed_stop-Stops (λ l. l ≡ stopped) world h refl
        (wait_observed-steady stopped world.stop_rounds asked steady ∙ idle-requested stopped h)
        allowed).requested
