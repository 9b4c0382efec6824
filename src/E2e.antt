-- ===== src/E2e.antt =====
-- src/e2e: end-to-end protection of payloads by a counter and a CRC. This module holds the data of
-- config.rs, state.rs, error.rs and mod.rs.
pub mod Crc
pub mod Sequence
pub mod Protect
pub mod Check
pub mod Link
pub mod Frames
pub mod Profile
pub mod Registry
use simple_someip.Prelude.{ℕ, List, Option, none, some}

pub record Profile4Config : Type 0 where
  pub data_id : ℕ
  pub max_delta_counter : ℕ

pub record Profile5Config : Type 0 where
  pub data_id : ℕ
  pub data_length : ℕ
  pub max_delta_counter : ℕ

-- The counters are a `u16` and a `u8`.
pub record Profile4State : Type 0 where
  pub protect_counter : ℕ
  pub last_counter : Option ℕ

pub record Profile5State : Type 0 where
  pub protect_counter : ℕ
  pub last_counter : Option ℕ

abbrev pub new_profile4_state : Profile4State
new_profile4_state = record { protect_counter = 0; last_counter = none }

abbrev pub new_profile5_state : Profile5State
new_profile5_state = record { protect_counter = 0; last_counter = none }

-- `with_initial_counter` of the two states.
abbrev pub profile4_with_initial_counter : ℕ → Profile4State
profile4_with_initial_counter counter = record { protect_counter = counter; last_counter = none }

abbrev pub profile5_with_initial_counter : ℕ → Profile5State
profile5_with_initial_counter counter = record { protect_counter = counter; last_counter = none }

unfoldable pub reset_profile4 : Profile4State → Profile4State
reset_profile4 state = record state { protect_counter = 0; last_counter = none }

unfoldable pub reset_profile5 : Profile5State → Profile5State
reset_profile5 state = record state { protect_counter = 0; last_counter = none }

pub data E2eError : Type 0 where
  buffer_too_small : (needed actual : ℕ) → E2eError

pub data E2eCheckStatus : Type 0 where
  unchecked okay crc_error repeated ok_some_lost wrong_sequence bad_argument : E2eCheckStatus

unfoldable pub to_return_code : E2eCheckStatus → ℕ
to_return_code unchecked = 0
to_return_code okay = 1
to_return_code crc_error = 2
to_return_code repeated = 3
to_return_code ok_some_lost = 4
to_return_code wrong_sequence = 5
to_return_code bad_argument = 6

pub record E2eCheckResult : Type 0 where
  pub status : E2eCheckStatus
  pub counter : Option ℕ
  pub payload : Option (List ℕ)

abbrev pub error : E2eCheckStatus → E2eCheckResult
error status = record { status = status; counter = none; payload = none }

abbrev pub success : E2eCheckStatus → ℕ → List ℕ → E2eCheckResult
success status counter payload = record {
  status = status;
  counter = some counter;
  payload = some payload;
}
