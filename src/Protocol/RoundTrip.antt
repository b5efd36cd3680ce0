-- ===== src/Protocol/RoundTrip.antt =====
-- What is written to a payload is what is read from it.
use aidin_hand2_sdk.Base.{
  ℕ, zero, suc, ◌+◌, ◌*◌, ◌^◌, ◌≤◌, ◌<◌, ◌≡◌, refl, ◌==◌, ==_iff, arith, Bool-cases, inl, inr, ◌∙◌,
}
use aidin_hand2_sdk.Base.Arrays.{Array}
use aidin_hand2_sdk.Protocol.Bytes.{
  read_word16, read_word32, write_word16, write_word32, read_word16_array, read_word32_array,
  write_word16_array, write_word32_array, write_byte_array,
}

read-write_word16 : (d : Array ℕ) (b v : ℕ) → v < 2 ^ 16 → read_word16 (write_word16 d b v) b ≡ v
unfolding read_word16 write_word16
read-write_word16 d b v h = ground arith

read-write_word32 : (d : Array ℕ) (b v : ℕ) → v < 2 ^ 32 → read_word32 (write_word32 d b v) b ≡ v
unfolding read_word32 write_word32
read-write_word32 d b v h = ground arith

-- A scalar that ends before the written one begins is left alone.
read_before-write_word16 :
    (d : Array ℕ) (a b v : ℕ) → a + 2 ≤ b → read_word16 (write_word16 d b v) a ≡ read_word16 d a
unfolding read_word16 write_word16
read_before-write_word16 d a b v h = ground arith

read_before-write_word32 :
    (d : Array ℕ) (a b v : ℕ) → a + 4 ≤ b → read_word32 (write_word32 d b v) a ≡ read_word32 d a
unfolding read_word32 write_word32
read_before-write_word32 d a b v h = ground arith

read_before-write_word16_array :
    (n : ℕ) (d : Array ℕ) (a b : ℕ) (v : Array ℕ)
    → a + 2 ≤ b
    → read_word16 (write_word16_array n d b v) a ≡ read_word16 d a
unfolding write_word16_array
read_before-write_word16_array zero d a b v h = refl
read_before-write_word16_array (suc n) d a b v h =
    read_before-write_word16 (write_word16_array n d b v) a (b + n * 2) (v n) (omega arith)
    ∙ read_before-write_word16_array n d a b v h

-- An array of 16-bit scalars written at an offset is read back entry by entry.
pub read-write_word16_array :
    (n : ℕ) (d : Array ℕ) (b : ℕ) (v : Array ℕ) (i : ℕ)
    → i < n
    → v i < 2 ^ 16
    → read_word16_array (write_word16_array n d b v) b i ≡ v i
unfolding read_word16_array write_word16_array
read-write_word16_array zero d b v i lt h = absurd (omega arith)
read-write_word16_array (suc n) d b v i lt h = elim (Bool-cases (i == n)) [
  | inl e ↦
      rw ((==_iff i n).0 e) (
        read-write_word16 (write_word16_array n d b v) (b + n * 2) (v n)
          (rw (← (==_iff i n).0 e) h))
  | inr e ↦
      read_before-write_word16 (write_word16_array n d b v) (b + i * 2) (b + n * 2) (v n)
        (ground arith)
      ∙ read-write_word16_array n d b v i (ground arith) h
]

pub read-write_word32_array :
    (n : ℕ) (d : Array ℕ) (b : ℕ) (v : Array ℕ) (i : ℕ)
    → i < n
    → v i < 2 ^ 32
    → read_word32_array (write_word32_array n d b v) b i ≡ v i
unfolding read_word32_array write_word32_array
read-write_word32_array zero d b v i lt h = absurd (omega arith)
read-write_word32_array (suc n) d b v i lt h = elim (Bool-cases (i == n)) [
  | inl e ↦
      rw ((==_iff i n).0 e) (
        read-write_word32 (write_word32_array n d b v) (b + n * 4) (v n)
          (rw (← (==_iff i n).0 e) h))
  | inr e ↦
      read_before-write_word32 (write_word32_array n d b v) (b + i * 4) (b + n * 4) (v n)
        (ground arith)
      ∙ read-write_word32_array n d b v i (ground arith) h
]

-- So is an array of bytes.
pub read-write_byte_array :
    (n : ℕ) (d : Array ℕ) (b : ℕ) (v : Array ℕ) (i j : ℕ)
    → j ≡ b + i
    → i < n
    → write_byte_array n d b v j ≡ v i
unfolding write_byte_array
read-write_byte_array zero d b v i j at lt = absurd (omega arith)
read-write_byte_array (suc n) d b v i j at lt = elim (Bool-cases (i == n)) [
  | inl e ↦ rw ((==_iff i n).0 e) (ground arith)
  | inr e ↦ ground (arith, read-write_byte_array n d b v i j)
]

-- The first of two arrays in one payload survives the writing of the second behind it.
pub read-write_two :
    (n m : ℕ) (d : Array ℕ) (b c : ℕ) (u v : Array ℕ) (i : ℕ)
    → b + n * 2 ≤ c
    → i < n
    → u i < 2 ^ 16
    → read_word16_array (write_word16_array m (write_word16_array n d b u) c v) b i ≡ u i
read-write_two n m d b c u v i fits lt h =
    unfold read_word16_array in
    read_before-write_word16_array m (write_word16_array n d b u) (b + i * 2) c v (omega arith)
    ∙ read-write_word16_array n d b u i lt h
