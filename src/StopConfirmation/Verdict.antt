-- ===== src/StopConfirmation/Verdict.antt =====
-- The verdict over the cycles of one stop, each with its confirmed signal.
use aidin_hand2_sdk.Base.{
  ℕ, ◌+◌, ◌≤◌, ◌≡◌, refl, Bool, true, false, ◌||◌, ltb, if◌then◌else◌, arith, List, [], ◌∷◌,
}
use aidin_hand2_sdk.Base.Lists.{length}
use aidin_hand2_sdk.StopConfirmation.{
  StopConfirmation, waiting, confirmed, not_confirmed, evaluate_stop_confirmation,
}

abbrev pub any_signal : List Bool → Bool
any_signal [] = false
any_signal (signal ∷ signals) = signal || any_signal signals

unfoldable pub evaluate_all : ℕ → List Bool → StopConfirmation → ℕ → StopConfirmation
evaluate_all window [] current cycles = current
evaluate_all window (signal ∷ signals) current cycles =
    let (next, counted) = evaluate_stop_confirmation current signal cycles window in
    evaluate_all window signals next counted

evaluate_all-confirmed :
    (window : ℕ) (signals : List Bool) (cycles : ℕ)
    → evaluate_all window signals confirmed cycles ≡ confirmed
unfolding evaluate_all evaluate_stop_confirmation
evaluate_all-confirmed window [] cycles = refl
evaluate_all-confirmed window (true ∷ signals) cycles = evaluate_all-confirmed window signals cycles
evaluate_all-confirmed window (false ∷ signals) cycles =
    evaluate_all-confirmed window signals cycles

evaluate_all-not_confirmed :
    (window : ℕ) (signals : List Bool) (cycles : ℕ)
    → evaluate_all window signals not_confirmed cycles
      ≡ (if any_signal signals then confirmed else not_confirmed)
unfolding evaluate_all evaluate_stop_confirmation
evaluate_all-not_confirmed window [] cycles = refl
evaluate_all-not_confirmed window (true ∷ signals) cycles =
    evaluate_all-confirmed window signals cycles
evaluate_all-not_confirmed window (false ∷ signals) cycles =
    evaluate_all-not_confirmed window signals cycles

evaluate_all-waiting :
    (window : ℕ) (signals : List Bool) (cycles : ℕ)
    → cycles ≤ window
    → evaluate_all window signals waiting cycles ≡ (
        if any_signal signals
        then confirmed
        else if ltb window (cycles + length signals)
        then not_confirmed
        else waiting)
unfolding evaluate_all evaluate_stop_confirmation
evaluate_all-waiting window [] cycles h = ground arith
evaluate_all-waiting window (true ∷ signals) cycles h = evaluate_all-confirmed window signals cycles
evaluate_all-waiting window (false ∷ signals) cycles h = ground (
  arith,
  evaluate_all-waiting window signals (cycles + 1),
  evaluate_all-not_confirmed window signals (cycles + 1),
)

-- Over the cycles of one stop, from Waiting with the counter at 0: the verdict is Confirmed exactly
-- if some cycle confirmed, however late, and stays so; otherwise it is Waiting for as many cycles as
-- the window has and NotConfirmed from the next one on.
pub evaluate_all-verdict :
    (window : ℕ) (signals : List Bool)
    → evaluate_all window signals waiting 0 ≡ (
        if any_signal signals
        then confirmed
        else if ltb window (length signals)
        then not_confirmed
        else waiting)
evaluate_all-verdict window signals =
    ground (arith, evaluate_all-waiting window signals 0 (omega arith))
