-- ===== src/NetEndpoint.antt =====
-- src/net_endpoint.rs: a socket address and the transport protocol on it. A socket address of
-- Rust's standard library is an IPv4 address, as a number, or an IPv6 address, as its octets,
-- with a port.
use simple_someip.Prelude.{ℕ, List}
use simple_someip.Sd.Options.{TransportProtocol, udp as udp_protocol, tcp as tcp_protocol}

pub data SocketAddr : Type 0 where
  v4 : (ip port : ℕ) → SocketAddr
  v6 : (ip : List ℕ) (port : ℕ) → SocketAddr

-- `SocketAddrV4`.
pub record SocketAddrV4 : Type 0 where
  pub ip : ℕ
  pub port : ℕ

pub record NetEndpoint : Type 0 where
  pub addr : SocketAddr
  pub protocol : TransportProtocol

abbrev pub new : SocketAddr → TransportProtocol → NetEndpoint
new addr protocol = record { addr = addr; protocol = protocol }

abbrev pub udp : SocketAddr → NetEndpoint
udp addr = new addr udp_protocol

abbrev pub tcp : SocketAddr → NetEndpoint
tcp addr = new addr tcp_protocol
