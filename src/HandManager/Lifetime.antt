-- ===== src/HandManager/Lifetime.antt =====
-- That no core is lost without being closed (hand_manager.cpp).
use aidin_hand2_sdk.Base.{
  ℕ, ◌<◌, ◌≤◌, ◌≡◌, refl, Bool, true, false, not, ◌||◌, ◌==◌, if◌then◌else◌, arith, inl, inr,
  Bool-cases, List, [], ◌∷◌, ◌++◌,
}
use aidin_hand2_sdk.Base.Arrays.{Array, set}
use aidin_hand2_sdk.Types.Error.{ErrorCode, wrong_call_order}
use aidin_hand2_sdk.HandManager.{
  HandManager, new_manager, contains, remove, close_all, create, destroy, destroy_all, invoke,
}

-- A core that was created is owned or closed, never both, and no other one is either.
abbrev pub IsAccounted : HandManager → Type 0
IsAccounted m =
    (core : ℕ)
    → ((core < m.created) → contains m.cores core ≡ not (m.closed core))
      × (m.created ≤ core → (contains m.cores core ≡ false) × (m.closed core ≡ false))

pub data Call : Type 0 where
  create_call : Bool → Call
  destroy_call : ℕ → Call
  destroy_all_call : Call

unfoldable pub perform : Call → HandManager → HandManager
perform (create_call has_positive_rate) m = (create has_positive_rate m).0
perform (destroy_call hand) m = destroy hand m
perform destroy_all_call m = destroy_all m

abbrev pub perform_all : List Call → HandManager → HandManager
perform_all [] m = m
perform_all (call ∷ calls) m = perform_all calls (perform call m)

contains-append :
    (cores : List ℕ) (c core : ℕ)
    → contains (cores ++ c ∷ []) core ≡ (contains cores core || (core == c))
contains-append [] c core = ground arith
contains-append (d ∷ cores) c core = ground (arith, contains-append cores c core)

contains-remove :
    (cores : List ℕ) (c core : ℕ)
    → contains (remove cores c) core ≡ (if core == c then false else contains cores core)
contains-remove [] c core = ground arith
contains-remove (d ∷ cores) c core = elim (Bool-cases (c == d)) [
  | inl e ↦ rw e (ground (arith, contains-remove cores c core))
  | inr e ↦ rw e (ground (arith, contains-remove cores c core))
]

close_all-closed :
    (cores : List ℕ) (closed : Array Bool) (core : ℕ)
    → close_all cores closed core ≡ (contains cores core || closed core)
close_all-closed [] closed core = refl
close_all-closed (c ∷ cores) closed core =
    ground (arith, close_all-closed cores (set closed c true) core)

not_swaps : (b : Bool) (x y : ErrorCode) → (if not b then x else y) ≡ (if b then y else x)
not_swaps b x y = ground arith

-- Destroying an owned core.
destroy-counted :
    (hand : ℕ) (m : HandManager) (core : ℕ)
    → contains m.cores hand ≡ true
    → ((core < m.created) → contains m.cores core ≡ not (m.closed core))
      × (m.created ≤ core → (contains m.cores core ≡ false) × (m.closed core ≡ false))
    → ((hand < m.created) → contains m.cores hand ≡ not (m.closed hand))
      × (m.created ≤ hand → (contains m.cores hand ≡ false) × (m.closed hand ≡ false))
    → ((core < m.created) → contains (remove m.cores hand) core ≡ not (set m.closed hand true core))
      × (m.created ≤ core
          → (contains (remove m.cores hand) core ≡ false) × (set m.closed hand true core ≡ false))
destroy-counted hand m core owned (below, above) (_, beyond) = elim (Bool-cases (core == hand)) [
  | inl e ↦
      rw (contains-remove m.cores hand core, e)
        (λ _. refl, λ le. cc (owned, (beyond (ground arith)).0))
  | inr e ↦ rw (contains-remove m.cores hand core, e) (below, above)
]

perform-IsAccounted : (call : Call) (m : HandManager) → IsAccounted m → IsAccounted (perform call m)
unfolding perform create destroy destroy_all
perform-IsAccounted (create_call false) m h core = h core
perform-IsAccounted (create_call true) m h core =
    let (below, above) = h core in
    (
      λ lt. ground (arith, contains-append m.cores m.created core, below, above),
      λ le.
          (ground (arith, contains-append m.cores m.created core, above), (above (omega arith)).1),
    )
perform-IsAccounted (destroy_call hand) m h core = elim (Bool-cases (contains m.cores hand)) [
  | inr e ↦ rw e (h core)
  | inl e ↦ rw e (destroy-counted hand m core e (h core) (h hand))
]
perform-IsAccounted destroy_all_call m h core =
    let (below, above) = h core in
    let all = close_all-closed m.cores m.closed core in
    (λ lt. ground (arith, all, below), λ le. (refl, ground (arith, all, above)))

new_manager-IsAccounted : IsAccounted new_manager
unfolding new_manager
new_manager-IsAccounted core = ((λ lt. absurd (omega arith)), λ le. (refl, refl))

destroy_all-closes :
    (m : HandManager)
    → IsAccounted m
    → (core : ℕ) → core < m.created
    → (destroy_all m).closed core ≡ true
unfolding destroy_all
destroy_all-closes m h core lt =
    ground (arith, close_all-closed m.cores m.closed core, (h core).0 lt)

invoke-closed :
    (m : HandManager)
    → IsAccounted m
    → (hand : ℕ) (action : ℕ → ErrorCode) → hand < m.created
    → invoke hand action m ≡ (if m.closed hand then wrong_call_order else action hand)
unfolding invoke
invoke-closed m h hand action lt = rw ((h hand).0 lt) (not_swaps (m.closed hand) _ _)

-- After any history of calls of a manager: every core that was created is owned or was closed, and not
-- both; a call through a handle acts on its core if that is not closed, and answers WrongCallOrder if
-- it is; and after `destroy_all`, as after the destructor, every core ever created is closed.
pub perform_all-IsAccounted :
    (calls : List Call)
    → let m = perform_all calls new_manager in
      IsAccounted m
      × ((hand : ℕ) (action : ℕ → ErrorCode)
          → hand < m.created
          → invoke hand action m ≡ (if m.closed hand then wrong_call_order else action hand))
      × ((core : ℕ) → core < m.created → (destroy_all m).closed core ≡ true)
perform_all-IsAccounted calls =
    let all = from calls new_manager new_manager-IsAccounted in
    let m = perform_all calls new_manager in (all, invoke-closed m all, destroy_all-closes m all)
  where
    from : (calls : List Call) (m : HandManager) → IsAccounted m → IsAccounted (perform_all calls m)
    from [] m h = h
    from (call ∷ calls) m h = from calls (perform call m) (perform-IsAccounted call m h)
