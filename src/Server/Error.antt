-- ===== src/Server/Error.antt =====
-- The errors of src/server/error.rs. The text of the two last kinds is left out.
use simple_someip.Protocol.Error as Protocol
use simple_someip.E2e.{E2eError}
use simple_someip.Transport.{TransportError}

pub data ServerError : Type 0 where
  protocol : Protocol.Error → ServerError
  transport : TransportError → ServerError
  e2e : E2eError → ServerError
  capacity invalid_usage : ServerError
