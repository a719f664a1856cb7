-- ===== src/Packet.antt =====
-- The packet of shared/include/packet.h: its types, the payload union and the two factories.
pub mod Wire
mod Tests
use zip.Prelude.{ℕ}

-- `enum PacketType : uint8_t`
pub data PacketType : Type 0 where
  discovery discovery_ack : PacketType
  transaction_request : PacketType
  transaction_ack insufficient_balance_ack invalid_client_ack error_ack : PacketType

-- The value of each enumerator.
abbrev pub code : PacketType → ℕ
code PacketType.discovery = 1
code PacketType.discovery_ack = 2
code PacketType.transaction_request = 4
code PacketType.transaction_ack = 8
code PacketType.insufficient_balance_ack = 16
code PacketType.invalid_client_ack = 32
code PacketType.error_ack = 64

-- `RequestPayload` and `ReplyPayload` share the storage of the union: `destination_ip` and
-- `new_balance` are its first word, `value` is its second.
pub record Payload : Type 0 where
  pub first_word : ℕ  -- uint32_t
  pub second_word : ℕ  -- uint32_t

-- `type` is a byte: what arrives from the network need not be an enumerator.
pub record Packet : Type 0 where
  pub type : ℕ  -- uint8_t
  pub request_id : ℕ  -- uint32_t
  pub payload : Payload

abbrev pub destination_ip : Packet → ℕ
destination_ip p = p.payload.first_word

abbrev pub value : Packet → ℕ
value p = p.payload.second_word

abbrev pub new_balance : Packet → ℕ
new_balance p = p.payload.first_word

-- `Packet p;` leaves `p` uninitialised: the first argument is what the memory held before.
abbrev pub create_request : Packet → PacketType → ℕ → ℕ → ℕ → Packet
create_request p type request_id dest_ip amount = record p {
  type = code type;
  request_id = request_id;
  payload = record { first_word = dest_ip; second_word = amount };
}

-- Only the first word of the union is written.
abbrev pub create_reply : Packet → PacketType → ℕ → ℕ → Packet
create_reply p type request_id balance = record p {
  type = code type;
  request_id = request_id;
  payload = record { first_word = balance; second_word = p.payload.second_word };
}
