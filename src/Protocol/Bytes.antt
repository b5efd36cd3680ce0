-- ===== src/Protocol/Bytes.antt =====
-- The little-endian scalar access of protocol.cpp on the payload of a frame: the memcpy of a scalar
-- on the little-endian host that the file asserts. A signed scalar is its bit pattern.
use aidin_hand2_sdk.Base.{ℕ, zero, suc, ◌+◌, ◌*◌, ◌/◌, ◌%◌}
use aidin_hand2_sdk.Base.Arrays.{Array, set}

-- read_uint16 and read_int16.
unfoldable pub read_word16 : Array ℕ → ℕ → ℕ
read_word16 d b = d b + 256 * d (b + 1)

-- read_int32.
unfoldable pub read_word32 : Array ℕ → ℕ → ℕ
read_word32 d b = d b + 256 * d (b + 1) + 65536 * d (b + 2) + 16777216 * d (b + 3)

-- write_uint16 and write_int16.
unfoldable pub write_word16 : Array ℕ → ℕ → ℕ → Array ℕ
write_word16 d b v = set (set d b (v % 256)) (b + 1) (v / 256 % 256)

-- write_int32.
unfoldable pub write_word32 : Array ℕ → ℕ → ℕ → Array ℕ
write_word32 d b v =
    set (set (set (set d b (v % 256)) (b + 1) (v / 256 % 256)) (b + 2) (v / 65536 % 256)) (b + 3)
      (v / 16777216 % 256)

-- read_uint16_array, read_int16_array and read_int32_array from the offset b.
unfoldable pub read_word16_array : Array ℕ → ℕ → Array ℕ
read_word16_array d b i = read_word16 d (b + i * 2)

unfoldable pub read_word32_array : Array ℕ → ℕ → Array ℕ
read_word32_array d b i = read_word32 d (b + i * 4)

-- The loops of write_uint16_array, write_int16_array, write_int32_array and write_int8_array: the
-- value of index n - 1 is written last.
unfoldable pub write_word16_array : ℕ → Array ℕ → ℕ → Array ℕ → Array ℕ
write_word16_array zero d b v = d
write_word16_array (suc n) d b v = write_word16 (write_word16_array n d b v) (b + n * 2) (v n)

unfoldable pub write_word32_array : ℕ → Array ℕ → ℕ → Array ℕ → Array ℕ
write_word32_array zero d b v = d
write_word32_array (suc n) d b v = write_word32 (write_word32_array n d b v) (b + n * 4) (v n)

unfoldable pub write_byte_array : ℕ → Array ℕ → ℕ → Array ℕ → Array ℕ
write_byte_array zero d b v = d
write_byte_array (suc n) d b v = set (write_byte_array n d b v) (b + n) (v n)
