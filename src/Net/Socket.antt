-- ===== src/Net/Socket.antt =====
-- `UDPSocket` of shared/include/udp_socket.h and shared/src/udp_socket.cpp, on POSIX.
-- The operating system is not part of the repository. What it answers to the calls is an argument
-- of each operation, and of its own state the model keeps the open descriptors.
pub mod Lifetime
pub mod Exact
use zip.Prelude.{
  ℕ, ◌+◌, Bool, true, false, not, Option, none, some, List, [], ◌∷◌, ◌++◌, ◌==◌, if◌then◌else◌,
}
use zip.Prelude.Text.{length, take, drop}
use zip.Net.Address.{SocketAddress, Inet}

-- `sock_fd`; `none` is INVALID_SOCKET_VALUE.
pub record UdpSocket : Type 0 where
  pub sock_fd : Option ℕ

abbrev pub no_socket : UdpSocket
no_socket = record { sock_fd = none }

-- An open descriptor, with what `initialize` asks for.
pub record Descriptor : Type 0 where
  pub nonblocking : Bool
  pub can_broadcast : Bool
  pub bound_port : Option ℕ  -- in network byte order

abbrev pub Descriptors : Type 0
Descriptors = List (ℕ × Descriptor)

unfoldable pub find : ℕ → Descriptors → Option Descriptor
find fd [] = none
find fd ((j, d) ∷ ds) = if j == fd then some d else find fd ds

-- What a call changes in a descriptor, and `close`.
unfoldable pub change : ℕ → (Descriptor → Descriptor) → Descriptors → Descriptors
change fd f [] = []
change fd f ((j, d) ∷ ds) = if j == fd then (j, f d) ∷ ds else (j, d) ∷ change fd f ds

unfoldable pub close : ℕ → Descriptors → Descriptors
close fd [] = []
close fd ((j, d) ∷ ds) = if j == fd then ds else (j, d) ∷ close fd ds

-- What the operating system answers to `socket`, `setsockopt` and `bind`.
pub record Answers : Type 0 where
  pub socket_fd : Option ℕ
  pub setsockopt_succeeds : Bool
  pub bind_succeeds : Bool

abbrev pub set_nonblocking : ℕ → Descriptors → Descriptors
set_nonblocking fd = change fd (λ d. record d { nonblocking = true })

abbrev pub close_socket : UdpSocket → Descriptors → UdpSocket × Descriptors
close_socket s ds = elim s.sock_fd [
  | none ↦ (s, ds)
  | some fd ↦ (record s { sock_fd = none }, close fd ds)
]

-- `close_socket()` on the way to a `return false`.
abbrev give_up : ℕ → Descriptors → Bool × UdpSocket × Descriptors
give_up fd ds =
    let closed = close_socket (record { sock_fd = some fd }) ds in (false, closed.0, closed.1)

module _ (inet : Inet) (os : Answers) (port : ℕ) where
  open inet use {htons}

  abbrev pub bind_socket : ℕ → Descriptors → Bool × UdpSocket × Descriptors
  bind_socket fd ds =
      if os.bind_succeeds
      then (
        true,
        record { sock_fd = some fd },
        change fd (λ d. record d { bound_port = some (htons port) }) ds,
      )
      else give_up fd ds

  -- The socket may hold a descriptor when the call begins: it is overwritten.
  unfoldable pub initialize : Bool → UdpSocket → Descriptors → Bool × UdpSocket × Descriptors
  initialize is_broadcast s ds = elim os.socket_fd [
    | none ↦ (false, record s { sock_fd = none }, ds)
    | some fd ↦
        let opened =
          set_nonblocking fd
            ((fd, record { nonblocking = false; can_broadcast = false; bound_port = none }) ∷ ds) in
        if is_broadcast
        then (if os.setsockopt_succeeds
            then bind_socket fd (change fd (λ d. record d { can_broadcast = true }) opened)
            else give_up fd opened)
        else bind_socket fd opened
  ]

-- One call of `sendto`.
pub record Sendto : Type 0 where
  pub fd : ℕ
  pub data_bytes : List ℕ
  pub dest_addr : SocketAddress

-- The argument `sendto` is the number of bytes that the call reports, `none` for -1. The result is
-- what `send` returns, and the call that it made.
unfoldable pub send : Option ℕ → UdpSocket → List ℕ → SocketAddress → Bool × Option Sendto
send sent_bytes s bytes dest_addr = if length bytes == 0 then (false, none) else elim s.sock_fd [
  | none ↦ (false, none)
  | some fd ↦ (
    elim sent_bytes [ none ↦ false | some n ↦ n == length bytes ],
    some (record { fd = fd; data_bytes = bytes; dest_addr = dest_addr }),
  )
]

-- What `recvfrom` meets: a datagram with its sender, no datagram, or an error.
pub data Incoming : Type 0 where
  datagram : (bytes : List ℕ) → (sender : SocketAddress) → Incoming
  would_block failure : Incoming

-- What `receive` returns, `none` for -1, and what it leaves in the caller's buffer and address.
pub record Received : Type 0 where
  pub bytes_received : Option ℕ
  pub buffer : List ℕ
  pub sender_addr : SocketAddress

-- The buffer's length is `size`; a null pointer is a buffer of length 0.
unfoldable pub receive : Incoming → UdpSocket → List ℕ → SocketAddress → Received
receive incoming s buffer sender_addr =
    let refused : Received = record {
      bytes_received = none;
      buffer = buffer;
      sender_addr = sender_addr;
    } in
    if length buffer == 0 then refused else elim s.sock_fd [
      | none ↦ refused
      | some _ ↦ elim incoming [
        | would_block ↦ record refused { bytes_received = some 0 }
        | failure ↦ refused
        | datagram bytes sender ↦
            let received = take (length buffer) bytes in
            record {
              bytes_received = some (length received);
              buffer = received ++ drop (length received) buffer;
              sender_addr = sender;
            }
      ]
    ]
