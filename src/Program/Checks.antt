-- ===== src/Program/Checks.antt =====
-- What the checks of server/main.cpp and client/main.cpp leave: a port in range, or a refused socket.
use zip.Prelude.{
  ℕ, ◌<◌, ◌^◌, ◌≡◌, true, false, none, ◌==◌, Bool-cases, inl, inr, Option-cases, arith, ◌⊎◌,
}
use zip.Prelude.Text.{Text}
use zip.Prelude.Scan.{ℤ, stoi}
use zip.Port.{port, parse_port, to_uint16}
use zip.Net.Address.{Inet}
use zip.Net.Socket.{Descriptors, Answers, no_socket, initialize}

to_uint16_bound : (n : ℤ) → to_uint16 n < 2 ^ 16
to_uint16_bound (ℤ.pos n) = omega arith
to_uint16_bound (ℤ.negsuc n) = omega arith

pub parsed_bounds : (text : Text) (p : ℕ) → parse_port text ≡ port p → (0 < p) × (p < 2 ^ 16)
unfolding parse_port
parsed_bounds text p e = elim (Option-cases (stoi text)) [
  | inl none_there ↦ ground arith
  | inr (n, found) ↦ elim (Bool-cases (to_uint16 n == 0)) [
    | inl zero_port ↦ ground arith
    | inr some_port ↦ ground (arith, to_uint16_bound n)
  ]
]

module _ (inet : Inet) (os : Answers) where
  -- What refuses a socket.
  abbrev pub IsRefused : Type 0
  IsRefused = (os.socket_fd ≡ none) ⊎ (os.setsockopt_succeeds ≡ false) ⊎ (os.bind_succeeds ≡ false)

  pub refused_socket :
      (p : ℕ) (ds : Descriptors) → (initialize inet os p true no_socket ds).0 ≡ false → IsRefused
  unfolding initialize
  refused_socket p ds e = elim (Option-cases os.socket_fd) [
    | inl missing ↦ inl missing
    | inr (fd, found) ↦ elim (Bool-cases os.setsockopt_succeeds) [
      | inr no_broadcast ↦ inr (inl no_broadcast)
      | inl granted ↦ elim (Bool-cases os.bind_succeeds) [
        | inr no_port ↦ inr (inr no_port)
        | inl bound ↦ ground arith
      ]
    ]
  ]
