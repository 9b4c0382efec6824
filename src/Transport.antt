-- ===== src/Transport.antt =====
-- The errors of src/transport.rs. The kind of an I/O error is a number.
use simple_someip.Prelude.{ℕ}

pub data TransportError : Type 0 where
  address_in_use unsupported : TransportError
  io : ℕ → TransportError
