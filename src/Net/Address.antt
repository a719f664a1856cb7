-- ===== src/Net/Address.antt =====
-- `SocketAddress` of shared/include/udp_socket.h and shared/src/udp_socket.cpp. The conversions of
-- the platform (`htons`, `inet_pton`, ...) are not part of the repository: they are the interface
-- `Inet`.
use zip.Prelude.{ℕ, ◌<◌, ◌^◌, ◌≡◌, Option, none, some, Bool, not, ◌==◌, [], ◌∷◌}
use zip.Prelude.Text.{Text}

-- `struct sockaddr_in`, with the fields that the program uses: IP and port in network byte order.
pub record SocketAddress : Type 0 where
  pub sin_addr : ℕ  -- uint32_t
  pub sin_port : ℕ  -- uint16_t

-- `SocketAddress()`
abbrev pub no_address : SocketAddress
no_address = record { sin_addr = 0; sin_port = 0 }

abbrev pub ip : SocketAddress → ℕ
ip a = a.sin_addr

abbrev pub is_valid : SocketAddress → Bool
is_valid a = not (a.sin_addr == 0)

-- The platform: `inet_pton` writes the address or, on text that is no address, nothing.
pub record Inet : Type 0 where
  pub htons : ℕ → ℕ
  pub ntohs : ℕ → ℕ
  pub inet_pton : Text → Option ℕ
  pub inet_ntop : ℕ → Text
  pub ntohs-htons : (p : ℕ) → p < 2 ^ 16 → ntohs (htons p) ≡ p

module _ (inet : Inet) where
  open inet use {htons, ntohs, inet_pton, inet_ntop}

  -- `SocketAddress(const std::string&, uint16_t)`
  unfoldable pub from_text : Text → ℕ → SocketAddress
  from_text text p = record {
    sin_addr = elim (inet_pton text) [ none ↦ 0 | some a ↦ a ];
    sin_port = htons p;
  }

  -- `SocketAddress(uint32_t, uint16_t)`
  unfoldable pub from_ip : ℕ → ℕ → SocketAddress
  from_ip a p = record { sin_addr = a; sin_port = htons p }

  -- "255.255.255.255"
  abbrev all_hosts : Text
  all_hosts = 50 ∷ 53 ∷ 53 ∷ 46 ∷ 50 ∷ 53 ∷ 53 ∷ 46 ∷ 50 ∷ 53 ∷ 53 ∷ 46 ∷ 50 ∷ 53 ∷ 53 ∷ []

  unfoldable pub broadcast : ℕ → SocketAddress
  unfolding from_text
  broadcast p = from_text all_hosts p

  unfoldable pub ip_string : SocketAddress → Text
  ip_string a = inet_ntop a.sin_addr

  pub port : SocketAddress → ℕ
  port a = ntohs a.sin_port
