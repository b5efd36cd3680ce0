-- ===== src/HandManager/Tests.antt =====
-- Two hands, of which the first is destroyed.
use aidin_hand2_sdk.Base.{ℕ, ◌<◌, ◌≡◌, true, false, if◌then◌else◌, List, [], ◌∷◌}
use aidin_hand2_sdk.Types.Error.{ErrorCode, wrong_call_order}
use aidin_hand2_sdk.HandManager.{new_manager, destroy_all, invoke}
use aidin_hand2_sdk.HandManager.Lifetime.{
  Call, create_call, destroy_call, perform_all, IsAccounted, perform_all-IsAccounted,
}

abbrev two_hands : List Call
two_hands = create_call true ∷ create_call false ∷ create_call true ∷ destroy_call 0 ∷ []

perform_all-IsAccounted_example :
    let m = perform_all two_hands new_manager in
    IsAccounted m
    × ((hand : ℕ) (action : ℕ → ErrorCode)
        → hand < m.created
        → invoke hand action m ≡ (if m.closed hand then wrong_call_order else action hand))
    × ((core : ℕ) → core < m.created → (destroy_all m).closed core ≡ true)
perform_all-IsAccounted_example = perform_all-IsAccounted two_hands
