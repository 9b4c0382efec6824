-- ===== src/Protocol/Error.antt =====
-- src/protocol/error.rs and src/protocol/sd/error.rs.
use simple_someip.Prelude.{ℕ}

-- The message texts of `InvalidMessage`.
pub data SdMessageFault : Type 0 where
  too_short interface_version_mismatch message_type_mismatch return_code_mismatch not_sd :
      SdMessageFault

pub data SdError : Type 0 where
  invalid_entry_type : ℕ → SdError
  invalid_option_type : ℕ → SdError
  invalid_option_transport_protocol : ℕ → SdError
  incorrect_options_size : ℕ → SdError
  invalid_option_length : (option_type expected actual : ℕ) → SdError
  configuration_string_too_long : ℕ → SdError
  invalid_message : SdMessageFault → SdError
  incorrect_entries_size : ℕ → SdError

pub data Error : Type 0 where
  io : ℕ → Error
  unexpected_eof : Error
  invalid_protocol_version : ℕ → Error
  invalid_message_type_field : ℕ → Error
  invalid_return_code : ℕ → Error
  unsupported_message_id : ℕ → Error
  sd : SdError → Error
