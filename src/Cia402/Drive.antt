-- ===== src/Cia402/Drive.antt =====
-- The ladder of cia402.hpp against a drive. The drive is no code of the repository: it is a parameter
-- that answers a control word, and `FollowsLadder` states the CiA402 transitions which the header's
-- comments rely on (a rising edge of bit 7 clears a fault, and Shutdown, Switch On and Enable
-- Operation go up one rung each).
use native.Mathlib.Nat.{zero-add, suc-add}
use aidin_hand2_sdk.Base.{
  ℕ, zero, suc, ◌+◌, ◌≡◌, ◌⊎◌, true, false, not, ◌&&◌, ◌==◌, arith, inl, inr, Bool-cases, subst,
  ◌≤◌, ◌-◌, if◌then◌else◌,
}
use aidin_hand2_sdk.Base.Bits.{is_set}
use aidin_hand2_sdk.Cia402.{
  enable, compute_control_word, enable_operation_word, fault_reset_word, shutdown_word,
  switch_on_word, fault, ready_to_switch_on, is_operation_enabled,
}
use aidin_hand2_sdk.Cia402.StatusWord.{enabled-no_fault, enabled-is_set, is_set-six}

-- The next status of a drive, from the previous word, the word and the status.
abbrev pub Drive : Type 0
Drive = ℕ → ℕ → ℕ → ℕ

pub record FollowsLadder (drive : Drive) : Type 0 where
  pub resets :
      (last status : ℕ)
      → (last == fault_reset_word) ≡ false
      → is_set (drive last fault_reset_word status) fault ≡ false
  pub readies :
      (last status : ℕ)
      → is_set status fault ≡ false
      → (is_set (drive last shutdown_word status) fault ≡ false)
        × (is_set (drive last shutdown_word status) ready_to_switch_on ≡ true)
  pub switches :
      (last status : ℕ)
      → is_set status fault ≡ false
      → is_set status ready_to_switch_on ≡ true
      → (is_set (drive last switch_on_word status) fault ≡ false)
        × (is_set (drive last switch_on_word status) 0x6 ≡ true)
  pub enables :
      (last status : ℕ)
      → is_set status fault ≡ false
      → is_set status 0x6 ≡ true
      → is_operation_enabled (drive last enable_operation_word status) ≡ true

-- One cycle: the word for the status, and the drive's answer to it.
abbrev pub cycle : Drive → ℕ × ℕ → ℕ × ℕ
cycle drive (last, status) =
    let word = compute_control_word enable status last in (word, drive last word status)

pub cycles : Drive → ℕ → ℕ × ℕ → ℕ × ℕ
cycles drive zero s = s
cycles drive (suc n) s = cycles drive n (cycle drive s)

module _ (drive : Drive) (follows : FollowsLadder drive) where
  -- The rungs, each within the next: Operation Enabled; Switched On without a fault; Ready To Switch
  -- On without a fault; no fault; no fault, or its reset not sent just now; anything.
  abbrev Rung : ℕ → ℕ × ℕ → Type 0
  Rung zero s = is_operation_enabled s.1 ≡ true
  Rung (suc zero) s = (is_set s.1 fault ≡ false) × (is_set s.1 0x6 ≡ true)
  Rung (suc (suc zero)) s =
      (is_set s.1 fault ≡ false)
      × ((is_set s.1 0x6 ≡ true) ⊎ (is_set s.1 ready_to_switch_on ≡ true))
  Rung (suc (suc (suc zero))) s = is_set s.1 fault ≡ false
  Rung (suc (suc (suc (suc zero)))) s =
      (is_set s.1 fault ≡ false) ⊎ ((s.0 == fault_reset_word) ≡ false)
  Rung (suc (suc (suc (suc (suc k))))) s = Unit {0}

  Rung-up : (k : ℕ) (s : ℕ × ℕ) → Rung k s → Rung (suc k) s
  Rung-up zero s h = ground (arith, enabled-no_fault s.1, enabled-is_set s.1, is_set-six s.1)
  Rung-up (suc zero) s h = ground arith
  Rung-up (suc (suc zero)) s h = ground arith
  Rung-up (suc (suc (suc zero))) s h = ground arith
  Rung-up (suc (suc (suc (suc k)))) s h = tt

  -- One cycle climbs a rung, or stays in Operation Enabled.
  cycle_no_fault :
      (last status : ℕ)
      → is_set status fault ≡ false
      → ((is_set status 0x6 ≡ true) × Rung 0 (cycle drive (last, status)))
        ⊎ ((is_set status ready_to_switch_on ≡ true) × Rung 1 (cycle drive (last, status)))
        ⊎ ((is_set status 0x6 ≡ false)
            × (is_set status ready_to_switch_on ≡ false)
            × Rung 2 (cycle drive (last, status)))
  unfolding compute_control_word
  cycle_no_fault last status h = ground (
    arith,
    follows.enables last status,
    follows.switches last status,
    follows.readies last status,
    Bool-cases (is_set status 0x6),
    Bool-cases (is_set status ready_to_switch_on),
  )

  cycle-Rung : (k : ℕ) (s : ℕ × ℕ) → Rung (suc k) s → Rung k (cycle drive s)
  unfolding compute_control_word
  cycle-Rung zero (last, status) (h, six) = ground (arith, follows.enables last status h six)
  cycle-Rung (suc zero) (last, status) h =
      ground (arith, cycle_no_fault last status h.0, Rung-up 0 (cycle drive (last, status)))
  cycle-Rung (suc (suc zero)) (last, status) h = ground (
    arith,
    cycle_no_fault last status h,
    Rung-up 0 (cycle drive (last, status)),
    Rung-up 1 (cycle drive (last, status)),
  )
  cycle-Rung (suc (suc (suc zero))) (last, status) h = elim (Bool-cases (is_set status fault)) [
    | inl e ↦ ground (arith, follows.resets last status)
    | inr e ↦ Rung-up 2 (cycle drive (last, status)) (cycle-Rung (suc (suc zero)) (last, status) e)
  ]
  cycle-Rung (suc (suc (suc (suc zero)))) (last, status) h =
      elim (Bool-cases (is_set status fault)) [
        | inl e ↦ ground (arith, follows.resets last status)
        | inr e ↦
            Rung-up 3 (cycle drive (last, status)) (
              Rung-up 2 (cycle drive (last, status)) (cycle-Rung (suc (suc zero)) (last, status) e))
      ]
  cycle-Rung (suc (suc (suc (suc (suc k))))) s h = tt

  cycles-Rung : (k : ℕ) (s : ℕ × ℕ) → Rung k s → Rung 0 (cycles drive k s)
  unfolding cycles
  cycles-Rung zero s h = h
  cycles-Rung (suc k) s h = cycles-Rung k (cycle drive s) (cycle-Rung k s h)

  Rung-zero_stays : (n : ℕ) (s : ℕ × ℕ) → Rung 0 s → Rung 0 (cycles drive n s)
  unfolding cycles
  Rung-zero_stays zero s h = h
  Rung-zero_stays (suc n) s h = Rung-zero_stays n (cycle drive s) (cycle-Rung 0 s (Rung-up 0 s h))

  cycles-add : (m n : ℕ) (s : ℕ × ℕ) → cycles drive n (cycles drive m s) ≡ cycles drive (m + n) s
  unfolding cycles
  cycles-add zero n s = rw zero-add
  cycles-add (suc m) n s = rw suc-add (cycles-add m n (cycle drive s))

  -- A drive that follows the CiA402 ladder is in Operation Enabled after five cycles of mode Enable
  -- and in every later one, whatever status word and whatever previous control word it starts from,
  -- a fault included.
  pub cycles-enabled :
      (last status n : ℕ) → 5 ≤ n → is_operation_enabled (cycles drive n (last, status)).1 ≡ true
  cycles-enabled last status n h =
      subst (λ k. is_operation_enabled (cycles drive k (last, status)).1 ≡ true)
        (let e : 5 + (n - 5) ≡ n = omega arith in e)
        (subst (λ s. is_operation_enabled s.1 ≡ true) (cycles-add 5 (n - 5) (last, status))
          (Rung-zero_stays (n - 5) (cycles drive 5 (last, status))
            (cycles-Rung 5 (last, status) tt)))

-- A drive that meets the hypotheses: its rungs are the status words 0x40, 0x21, 0x23, 0x27, and 0x08 a fault.
abbrev pub plain_drive : Drive
plain_drive last word status =
    if is_set status fault
    then if word == fault_reset_word && not (last == fault_reset_word) then 0x40 else status
    else if word == enable_operation_word
    then 0x27
    else if word == switch_on_word
    then 0x23
    else if word == shutdown_word
    then 0x21
    else 0x40
