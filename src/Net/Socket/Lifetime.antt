-- ===== src/Net/Socket/Lifetime.antt =====
-- Which descriptors `UDPSocket` of shared/src/udp_socket.cpp opens and closes.
use zip.Prelude.{
  ℕ, ◌≡◌, refl, Bool, true, false, none, some, ◌∷◌, arith, Bool-cases, Option-cases, inl, inr,
}
use zip.Net.Address.{Inet}
use zip.Net.Socket.{
  UdpSocket, Descriptor, Descriptors, find, change, close, Answers, bind_socket, initialize,
}

-- The calls on the descriptor that was opened last.
module _ (fd : ℕ) (d : Descriptor) (ds : Descriptors) where
  find_newest : find fd ((fd, d) ∷ ds) ≡ some d
  unfolding find
  find_newest = ground arith

  close_newest : close fd ((fd, d) ∷ ds) ≡ ds
  unfolding close
  close_newest = ground arith

  change_newest : (f : Descriptor → Descriptor) → change fd f ((fd, d) ∷ ds) ≡ ((fd, f d) ∷ ds)
  unfolding change
  change_newest f = ground arith

-- What `initialize` leaves when it succeeds, and when it fails.
abbrev pub IsUsable : Inet → ℕ → Bool → UdpSocket → Descriptors → Descriptors → Type 0
IsUsable inet port is_broadcast s before after =
    (fd : ℕ) × (s.sock_fd ≡ some fd)
    × (find fd after
        ≡ some (record {
          nonblocking = true;
          can_broadcast = is_broadcast;
          bound_port = some (inet.htons port);
        }))
    × (close fd after ≡ before)

abbrev pub IsUntouched : UdpSocket → Descriptors → Descriptors → Type 0
IsUntouched s before after = (s.sock_fd ≡ none) × (after ≡ before)

abbrev pub Outcome : Inet → ℕ → Bool → Descriptors → Bool × UdpSocket × Descriptors → Type 0
Outcome inet port is_broadcast before (true, s, after) =
    IsUsable inet port is_broadcast s before after
Outcome inet port is_broadcast before (false, s, after) = IsUntouched s before after

bind_socket_lem :
    (inet : Inet) (os : Answers) (port fd : ℕ) (is_broadcast : Bool) (ds : Descriptors)
    → Outcome inet port is_broadcast ds (
        bind_socket inet os port fd (
          (fd, record { nonblocking = true; can_broadcast = is_broadcast; bound_port = none })
          ∷ ds))
bind_socket_lem inet os port fd is_broadcast ds = elim (Bool-cases os.bind_succeeds) [
  | inl granted ↦
      rw granted (simp change_newest (fd, refl, find_newest fd _ ds, close_newest fd _ ds))
  | inr refused ↦ rw refused (refl, close_newest fd _ ds)
]

-- Whatever the operating system answers, `initialize` either succeeds, and then the socket holds a
-- descriptor that does not block, may broadcast as asked, is bound to the port, and is the only one
-- added; or it fails, and then the socket holds none and every descriptor that it opened is closed.
pub initialize_lem :
    (inet : Inet) (os : Answers) (port : ℕ) (is_broadcast : Bool) (s : UdpSocket) (ds : Descriptors)
    → Outcome inet port is_broadcast ds (initialize inet os port is_broadcast s ds)
unfolding initialize
initialize_lem inet os port is_broadcast s ds = elim (Option-cases os.socket_fd) [
  | inl none_left ↦ rw none_left (refl, refl)
  | inr (fd, e) ↦ elim (Bool-cases is_broadcast) [
    | inr plain ↦ rw e (rw change_newest (rw plain (bind_socket_lem inet os port fd false ds)))
    | inl broadcast ↦ elim (Bool-cases os.setsockopt_succeeds) [
      | inl granted ↦ rw e (
          rw broadcast (
            rw granted
              (rw change_newest (rw change_newest (bind_socket_lem inet os port fd true ds)))))
      | inr refused ↦
          rw e (rw broadcast (rw refused (simp change_newest (refl, close_newest fd _ ds))))
    ]
  ]
]
