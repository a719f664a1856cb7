-- ===== src/Net.antt =====
-- The network layer that server and client share: shared/include/udp_socket.h.
pub mod Address
pub mod Socket
pub mod Tests
