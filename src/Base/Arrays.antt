-- ===== src/Base/Arrays.antt =====
-- `std::array<T, N>` as a function of its index: the loops of the code run below N, so no index is
-- out of range. Loops that read every entry and fold it into one Boolean are the two functions here.
use Prim.Native.Nat.{ℕ, zero, suc, ◌+◌, ◌≤◌, ◌<◌}
use mathlib.Core.Path.{◌≡◌, refl, sym, ◌∙◌}
use mathlib.Core.Bool.{Bool, true, false, not, ◌&&◌, ◌||◌}
use mathlib.Core.Logic.{inl, inr}
use native.Mathlib.Omega.{arith}
use aidin_hand2_sdk.Base.Tests.{Bool-cases, ==_iff, if◌then◌else◌, ◌==◌}

abbrev pub Array {ℓ} : Type ℓ → Type ℓ
Array A = ℕ → A

-- `a.fill(v)`, and the value of an array declared with `{}`.
abbrev pub fill {ℓ} : {A : Type ℓ} → A → Array A
fill v i = v

-- `a[k] = v`.
abbrev pub set {ℓ} : {A : Type ℓ} → Array A → ℕ → A → Array A
set a k v i = if i == k then v else a i

-- A loop over `count` entries from `index` on that returns false at the first one failing the test.
unfoldable pub all_from : ℕ → ℕ → (ℕ → Bool) → Bool
all_from zero index p = true
all_from (suc count) index p = p index && all_from count (index + 1) p

-- The same, returning true at the first entry that passes the test.
unfoldable pub any_from : ℕ → ℕ → (ℕ → Bool) → Bool
any_from zero index p = false
any_from (suc count) index p = p index || any_from count (index + 1) p

abbrev pub all_below : ℕ → (ℕ → Bool) → Bool
all_below n p = all_from n 0 p

abbrev pub any_below : ℕ → (ℕ → Bool) → Bool
any_below n p = any_from n 0 p

all_from→ :
    (n i : ℕ) (p : ℕ → Bool) (j : ℕ) → all_from n i p ≡ true → i ≤ j → j < i + n → p j ≡ true
unfolding all_from
all_from→ zero i p j h le lt = absurd (omega arith)
all_from→ (suc n) i p j h le lt = elim (Bool-cases (i == j)) [
  | inl e ↦ rw (← (==_iff i j).0 e) (ground arith)
  | inr e ↦ all_from→ n (i + 1) p j (ground arith) (ground arith) (ground arith)
]

all_from← :
    (n i : ℕ) (p : ℕ → Bool) → ((j : ℕ) → i ≤ j → j < i + n → p j ≡ true) → all_from n i p ≡ true
unfolding all_from
all_from← zero i p h = refl
all_from← (suc n) i p h = ground (
  arith,
  h i (omega arith) (omega arith),
  all_from← n (i + 1) p (λ j le lt. h j (omega arith) (omega arith)),
)

any_from→ :
    (n i : ℕ) (p : ℕ → Bool)
    → any_from n i p ≡ true
    → (j : ℕ) × (i ≤ j) × (j < i + n) × (p j ≡ true)
unfolding any_from
any_from→ zero i p h = absurd (ground arith)
any_from→ (suc n) i p h = elim (Bool-cases (p i)) [
  | inl e ↦ (i, omega arith, omega arith, e)
  | inr e ↦
      let (j, le, lt, f) = any_from→ n (i + 1) p (ground arith) in (j, omega arith, omega arith, f)
]

any_from← :
    (n i : ℕ) (p : ℕ → Bool) (j : ℕ) → i ≤ j → j < i + n → p j ≡ true → any_from n i p ≡ true
unfolding any_from
any_from← zero i p j le lt h = absurd (omega arith)
any_from← (suc n) i p j le lt h = elim (Bool-cases (i == j)) [
  | inl e ↦ rw ((==_iff i j).0 e, h)
  | inr e ↦ ground (arith, any_from← n (i + 1) p j)
]

pub all_below→ : (n : ℕ) (p : ℕ → Bool) (i : ℕ) → all_below n p ≡ true → i < n → p i ≡ true
all_below→ n p i h lt = all_from→ n 0 p i h (omega arith) (omega arith)

pub all_below← : (n : ℕ) (p : ℕ → Bool) → ((i : ℕ) → i < n → p i ≡ true) → all_below n p ≡ true
all_below← n p h = all_from← n 0 p (λ j _ lt. h j (omega arith))

pub any_below→ : (n : ℕ) (p : ℕ → Bool) → any_below n p ≡ true → (i : ℕ) × (i < n) × (p i ≡ true)
any_below→ n p h = let (j, _, lt, e) = any_from→ n 0 p h in (j, omega arith, e)

pub any_below← : (n : ℕ) (p : ℕ → Bool) (i : ℕ) → i < n → p i ≡ true → any_below n p ≡ true
any_below← n p i lt h = any_from← n 0 p i (omega arith) (omega arith) h

pub any_below-false : (n : ℕ) (p : ℕ → Bool) (i : ℕ) → any_below n p ≡ false → i < n → p i ≡ false
any_below-false n p i h lt = elim (Bool-cases (p i)) [
  | inl e ↦ cc (any_below← n p i lt e)
  | inr e ↦ e
]

not-any_from : (n i : ℕ) (p : ℕ → Bool) → not (any_from n i p) ≡ all_from n i (λ j. not (p j))
unfolding any_from all_from
not-any_from zero i p = refl
not-any_from (suc n) i p = ground (arith, not-any_from n (i + 1) p)

-- An entry that fails the test exists where a loop over all of them returned false.
pub all_below-false :
    (n : ℕ) (p : ℕ → Bool) → all_below n p ≡ false → (i : ℕ) × (i < n) × (p i ≡ false)
all_below-false n p h = elim (Bool-cases (any_below n (λ j. not (p j)))) [
  | inl e ↦ let (i, lt, f) = any_below→ n (λ j. not (p j)) e in (i, lt, ground arith)
  | inr e ↦ cc (all_below← n p (λ i lt. passes i (any_below-false n (λ j. not (p j)) i e lt)))
]
  where
    passes : (i : ℕ) → not (p i) ≡ false → p i ≡ true
    passes i e = ground arith

-- A loop's answer depends on the entries below n only.
pub any_below-congr :
    (n : ℕ) (p q : ℕ → Bool) → ((i : ℕ) → i < n → p i ≡ q i) → any_below n p ≡ any_below n q
any_below-congr n p q h = elim (Bool-cases (any_below n p)) [
  | inl e ↦ let (i, lt, f) = any_below→ n p e in rw e (sym (any_below← n q i lt (sym (h i lt) ∙ f)))
  | inr e ↦ elim (Bool-cases (any_below n q)) [
    | inr k ↦ rw (e, k)
    | inl k ↦ let (i, lt, f) = any_below→ n q k in cc (any_below← n p i lt (h i lt ∙ f))
  ]
]

-- Where a loop over all entries fails, some entry passes a test that follows from failing.
pub any_of_not-all :
    (n : ℕ) (p q : ℕ → Bool)
    → ((i : ℕ) → p i ≡ false → q i ≡ true)
    → all_below n p ≡ false
    → any_below n q ≡ true
any_of_not-all n p q follows h =
    let (i, lt, e) = all_below-false n p h in any_below← n q i lt (follows i e)

pub any_below_mono :
    (n : ℕ) (p q : ℕ → Bool)
    → ((i : ℕ) → p i ≡ true → q i ≡ true)
    → any_below n p ≡ true
    → any_below n q ≡ true
any_below_mono n p q follows h =
    let (i, lt, e) = any_below→ n p h in any_below← n q i lt (follows i e)
