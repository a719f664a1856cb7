-- ===== src/Net/Socket/Exact.antt =====
-- The buffer of `UDPSocket::receive` of shared/src/udp_socket.cpp: its size, and a datagram that
-- fits it exactly.
use zip.Prelude.{◌++◌, ℕ, ◌<◌, ◌≡◌, some, List, arith}
use zip.Prelude.Text.{
  length, take, drop, length-++, length-drop, length-take_le, take_all, drop_all, ++_nil,
}
use zip.Net.Address.{SocketAddress}
use zip.Net.Socket.{UdpSocket, datagram, receive}

pub receive_exact :
    (s : UdpSocket) (fd n : ℕ) (buffer bytes : List ℕ) (before sender : SocketAddress)
    → s.sock_fd ≡ some fd
    → length buffer ≡ n
    → length bytes ≡ n
    → 0 < n
    → receive (datagram bytes sender) s buffer before
      ≡ record { bytes_received = some n; buffer = bytes; sender_addr = sender }
unfolding receive
receive_exact s fd n buffer bytes before sender is_open size same some_bytes =
    ground (arith, take_all n bytes, drop_all n buffer, ++_nil bytes)

-- A datagram that is cut to the buffer's size, over the buffer.
pub buffer_size :
    (n : ℕ) (bytes buffer : List ℕ)
    → length buffer ≡ n
    → length (take n bytes ++ drop (length (take n bytes)) buffer) ≡ n
buffer_size n bytes buffer size =
    rw (length-++ (take n bytes) (drop (length (take n bytes)) buffer))
      (ground (arith, size, length-drop (length (take n bytes)) buffer, length-take_le n bytes))
