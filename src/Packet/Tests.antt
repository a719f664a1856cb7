-- ===== src/Packet/Tests.antt =====
-- A packet of shared/include/packet.h as bytes.
use zip.Prelude.{◌≡◌, arith}
use zip.Packet.{Packet}
use zip.Packet.Wire.{to_bytes, from_bytes, from_bytes-to_bytes}

abbrev pub large_request : Packet
large_request = record {
  type = 4;
  request_id = 4294967295;
  payload = record { first_word = 3232235876; second_word = 300 };
}

large_request_survives : from_bytes (to_bytes 7 8 9 large_request) ≡ large_request
large_request_survives =
    (from_bytes-to_bytes 7 8 9 large_request (omega arith) (omega arith) (omega arith)).1
