-- ===== src/RealtimeBuffer/Word.antt =====
-- The state word of realtime_buffer.hpp: three slot numbers of two bits each, and the fresh flag.
use Prim.Native.Nat.{bit_and, bit_or}
use aidin_hand2_sdk.Base.{
  ℕ, ◌+◌, ◌*◌, ◌/◌, ◌%◌, ◌<◌, ◌≡◌, refl, Bool, true, false, not, ◌&&◌, ◌==◌, if◌then◌else◌, arith,
}
use aidin_hand2_sdk.Base.Arrays.{all_below, all_from, all_below→}

-- [1:0] write, [3:2] ready, [5:4] read, [6] fresh. A shift by k is a product or quotient by 2 ^ k.
unfoldable pub pack : ℕ → ℕ → ℕ → Bool → ℕ
pack w r c f =
    bit_or (bit_or (bit_or (bit_and w 3) (bit_and r 3 * 4)) (bit_and c 3 * 16))
      (if f then 64 else 0)

unfoldable pub wr : ℕ → ℕ
wr s = bit_and s 3

unfoldable pub rdy : ℕ → ℕ
rdy s = bit_and (s / 4) 3

unfoldable pub rd : ℕ → ℕ
rd s = bit_and (s / 16) 3

unfoldable pub fresh : ℕ → Bool
fresh s = not (bit_and (s / 64) 1 == 0)

abbrev unpacks : Bool → ℕ → Bool
unpacks f k =
    let w = k % 4 in
    let r = k / 4 % 4 in
    let c = k / 16 in
    let s = pack w r c f in wr s == w && rdy s == r && rd s == c && (if fresh s then f else not f)

pack_table : (f : Bool) → all_below 64 (unpacks f) ≡ true
unfolding pack wr rdy rd fresh all_from
pack_table true = refl
pack_table false = refl

-- The check at a number, as equations.
unpacks_sound :
    (f : Bool) (w r c k : ℕ)
    → k % 4 ≡ w
    → k / 4 % 4 ≡ r
    → k / 16 ≡ c
    → unpacks f k ≡ true
    → (wr (pack w r c f) ≡ w)
      × (rdy (pack w r c f) ≡ r)
      × (rd (pack w r c f) ≡ c)
      × (fresh (pack w r c f) ≡ f)
unpacks_sound f w r c k ew er ec h = rw (← ew, ← er, ← ec) (ground arith)

-- The four fields of a packed word are the ones packed.
pub unpack-pack :
    (w r c : ℕ) (f : Bool)
    → w < 4
    → r < 4
    → c < 4
    → (wr (pack w r c f) ≡ w)
      × (rdy (pack w r c f) ≡ r)
      × (rd (pack w r c f) ≡ c)
      × (fresh (pack w r c f) ≡ f)
unpack-pack w r c f hw hr hc =
    let k : ℕ = w + 4 * r + 16 * c in
    unpacks_sound f w r c k (omega arith) (omega arith) (omega arith)
      (all_below→ 64 (unpacks f) k (pack_table f) (omega arith))
