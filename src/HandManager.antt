-- ===== src/HandManager.antt =====
-- cpp/src/hand/hand_manager.cpp and the helpers of cpp/src/hand/hand.cpp: which cores a manager owns,
-- and what a handle to one of them may do. A core is a number, in the order of creation; it is alive
-- while the manager owns it, since a handle is a weak pointer.
pub mod Lifetime
mod Tests
use aidin_hand2_sdk.Base.{
  ℕ, ◌+◌, Bool, true, false, not, ◌||◌, ◌==◌, if◌then◌else◌, Option, none, some, List, [], ◌∷◌,
  ◌++◌,
}
use aidin_hand2_sdk.Base.Arrays.{Array, set}
use aidin_hand2_sdk.Types.Error.{ErrorCode, ok, invalid_argument, wrong_call_order}

pub record HandManager : Type 0 where
  -- cores_, the number of cores created so far, and which of them were closed.
  pub cores : List ℕ
  pub created : ℕ
  pub closed : Array Bool

unfoldable pub new_manager : HandManager
new_manager = record { cores = []; created = 0; closed = λ _. false }

abbrev pub contains : List ℕ → ℕ → Bool
contains [] core = false
contains (c ∷ cores) core = (core == c) || contains cores core

abbrev pub remove : List ℕ → ℕ → List ℕ
remove [] core = []
remove (c ∷ cores) core = let rest = remove cores core in if core == c then rest else c ∷ rest

-- HandCore::close on every core of a list.
abbrev pub close_all : List ℕ → Array Bool → Array Bool
close_all [] closed = closed
close_all (c ∷ cores) closed = close_all cores (set closed c true)

-- A control rate that is not positive is refused; a handle is the core's number.
unfoldable pub create : Bool → HandManager → HandManager × ErrorCode × Option ℕ
create has_positive_rate m = if not has_positive_rate then (m, invalid_argument, none) else (
  record m { cores = m.cores ++ m.created ∷ []; created = m.created + 1 },
  ok,
  some m.created,
)

unfoldable pub destroy : ℕ → HandManager → HandManager
destroy hand m =
    if contains m.cores hand
    then record m { cores = remove m.cores hand; closed = set m.closed hand true }
    else m

unfoldable pub destroy_all : HandManager → HandManager
destroy_all m = record m { cores = []; closed = close_all m.cores m.closed }

-- `invoke` with lock_core: the code of the action on the core, or that of a handle that outlived it.
unfoldable pub invoke : ℕ → (ℕ → ErrorCode) → HandManager → ErrorCode
invoke hand action m = if contains m.cores hand then action hand else wrong_call_order
