-- ===== src/Packet/Wire.antt =====
-- The bytes of a `Packet` of shared/include/packet.h in memory, which is what the sockets send and
-- receive: the type in byte 0, three bytes of padding, then three words, the lowest byte first.
use zip.Prelude.{
  ℕ, zero, suc, ◌+◌, ◌*◌, ◌/◌, ◌%◌, ◌<◌, ◌≤◌, ◌^◌, ◌≡◌, List, [], ◌∷◌, ◌++◌, refl, arith,
}
use zip.Prelude.Text.{length, take}
use zip.Packet.{Packet}

-- `sizeof(Packet)`
abbrev pub sizeof_packet : ℕ
sizeof_packet = 16

-- The bytes of a `uint32_t`.
abbrev word_bytes : ℕ → List ℕ
word_bytes n = n % 256 ∷ n / 256 % 256 ∷ n / 65536 % 256 ∷ n / 16777216 % 256 ∷ []

-- The byte at an offset.
unfoldable pub byte_at : ℕ → List ℕ → ℕ
byte_at i [] = 0
byte_at zero (b ∷ bs) = b
byte_at (suc i) (b ∷ bs) = byte_at i bs

unfoldable pub word_at : ℕ → List ℕ → ℕ
unfolding byte_at
word_at i bs =
    byte_at i bs
    + 256 * byte_at (i + 1) bs
    + 65536 * byte_at (i + 2) bs
    + 16777216 * byte_at (i + 3) bs

-- The padding has whatever the memory held: it is the first three arguments.
abbrev pub to_bytes : ℕ → ℕ → ℕ → Packet → List ℕ
to_bytes a b c p =
    (p.type ∷ a ∷ b ∷ c ∷ [])
    ++ word_bytes p.request_id
    ++ word_bytes p.payload.first_word
    ++ word_bytes p.payload.second_word

unfoldable pub from_bytes : List ℕ → Packet
unfolding word_at
from_bytes bs = record {
  type = byte_at 0 bs;
  request_id = word_at 4 bs;
  payload = record { first_word = word_at 8 bs; second_word = word_at 12 bs };
}

word_bytes_value :
    (n : ℕ)
    → n < 2 ^ 32
    → n % 256 + 256 * (n / 256 % 256) + 65536 * (n / 65536 % 256) + 16777216 * (n / 16777216 % 256)
      ≡ n
word_bytes_value n bound = omega arith

-- Bytes that stand at the front of a buffer.
byte_at-take_front :
    (i n : ℕ) (bs rest : List ℕ)
    → i < n
    → n ≤ length bs
    → byte_at i (take n bs ++ rest) ≡ byte_at i bs
unfolding byte_at take length
byte_at-take_front i zero bs rest h k = ground arith
byte_at-take_front i (suc n) [] rest h k = ground arith
byte_at-take_front zero (suc n) (b ∷ bs) rest h k = refl
byte_at-take_front (suc i) (suc n) (b ∷ bs) rest h k =
    ground (arith, byte_at-take_front i n bs rest)

word_at-take_front :
    (i n : ℕ) (bs rest : List ℕ)
    → i + 3 < n
    → n ≤ length bs
    → word_at i (take n bs ++ rest) ≡ word_at i bs
unfolding word_at
word_at-take_front i n bs rest h k = ground (
  arith,
  byte_at-take_front i n bs rest,
  byte_at-take_front (i + 1) n bs rest,
  byte_at-take_front (i + 2) n bs rest,
  byte_at-take_front (i + 3) n bs rest,
)

pub from_bytes-take_front :
    (bs rest : List ℕ)
    → sizeof_packet ≤ length bs
    → from_bytes (take sizeof_packet bs ++ rest) ≡ from_bytes bs
unfolding from_bytes
from_bytes-take_front bs rest h = rw (byte_at-take_front 0 16 bs rest (omega arith) h) (
    rw (word_at-take_front 4 16 bs rest (omega arith) h) (
      rw (word_at-take_front 8 16 bs rest (omega arith) h)
        (rw (word_at-take_front 12 16 bs rest (omega arith) h) refl)))

-- A packet whose words are below 2^32 takes 16 bytes, whatever its padding holds, and is read back
-- from them.
pub from_bytes-to_bytes :
    (a b c : ℕ) (p : Packet)
    → p.request_id < 2 ^ 32
    → p.payload.first_word < 2 ^ 32
    → p.payload.second_word < 2 ^ 32
    → (length (to_bytes a b c p) ≡ sizeof_packet) × (from_bytes (to_bytes a b c p) ≡ p)
unfolding from_bytes word_at byte_at length
from_bytes-to_bytes a b c p i f s = (
  refl,
  ground (
    arith,
    word_bytes_value p.request_id i,
    word_bytes_value p.payload.first_word f,
    word_bytes_value p.payload.second_word s,
  ),
)
