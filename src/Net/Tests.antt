-- ===== src/Net/Tests.antt =====
-- A platform for the tests, and a socket of shared/src/udp_socket.cpp on it.
use zip.Prelude.{◌+◌, ◌*◌, ◌/◌, ◌%◌, none, some, [], ◌∷◌, if◌then◌else◌, arith}
use zip.Prelude.Text.{is_empty}
use zip.Net.Address.{Inet}
use zip.Net.Socket.{UdpSocket}

-- A little-endian machine that takes every text but the empty one for the address 7.
abbrev pub platform : Inet
platform = record {
  htons = λ p. p % 256 * 256 + p / 256;
  ntohs = λ p. p % 256 * 256 + p / 256;
  inet_pton = λ text. if is_empty text then none else some 7;
  inet_ntop = λ _. 55 ∷ [];
  ntohs-htons = λ p bound. omega arith;
}

abbrev pub open_socket : UdpSocket
open_socket = record { sock_fd = some 3 }
