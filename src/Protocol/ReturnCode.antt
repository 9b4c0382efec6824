-- ===== src/Protocol/ReturnCode.antt =====
-- src/protocol/return_code.rs.
use simple_someip.Prelude.{
  ℕ, ◌≤◌, ◌≡◌, ◌≢◌, refl, arith, ◌==◌, ◌&&◌, leb, if◌then◌else◌, Result, ok, err, panic,
}
use simple_someip.Protocol.Error.{Error, invalid_return_code}

pub data ReturnCode : Type 0 where
  okay not_ok unknown_service unknown_method not_ready not_reachable timeout
        wrong_protocol_version :
      ReturnCode
  wrong_interface_version malformed_message wrong_message_type e2e_repeated e2e_wrong_sequence e2e :
      ReturnCode
  e2e_not_available e2e_no_new_data : ReturnCode
  generic_error interface_error : ℕ → ReturnCode

-- `as_u8`, and `From<ReturnCode> for u8`, which is the same table.
unfoldable pub as_u8 : ReturnCode → ℕ
as_u8 okay = 0x00
as_u8 not_ok = 0x01
as_u8 unknown_service = 0x02
as_u8 unknown_method = 0x03
as_u8 not_ready = 0x04
as_u8 not_reachable = 0x05
as_u8 timeout = 0x06
as_u8 wrong_protocol_version = 0x07
as_u8 wrong_interface_version = 0x08
as_u8 malformed_message = 0x09
as_u8 wrong_message_type = 0x0a
as_u8 e2e_repeated = 0x0b
as_u8 e2e_wrong_sequence = 0x0c
as_u8 e2e = 0x0d
as_u8 e2e_not_available = 0x0e
as_u8 e2e_no_new_data = 0x0f
as_u8 (generic_error v) = v
as_u8 (interface_error v) = v

-- The arms above 0x0f.
unfoldable pub ranges : ℕ → Result Error ReturnCode
ranges v =
    if leb 0x10 v && leb v 0x1f
    then ok (generic_error v)
    else if leb 0x20 v && leb v 0x5e
    then ok (interface_error v)
    else err (invalid_return_code v)

unfoldable pub second_eight : ℕ → Result Error ReturnCode
second_eight v =
    if v == 0x08
    then ok wrong_interface_version
    else if v == 0x09
    then ok malformed_message
    else if v == 0x0a
    then ok wrong_message_type
    else if v == 0x0b
    then ok e2e_repeated
    else if v == 0x0c
    then ok e2e_wrong_sequence
    else if v == 0x0d
    then ok e2e
    else if v == 0x0e
    then ok e2e_not_available
    else if v == 0x0f
    then ok e2e_no_new_data
    else ranges v

-- The arms of the match in order, in three parts.
unfoldable pub try_from : ℕ → Result Error ReturnCode
try_from v =
    if v == 0x00
    then ok okay
    else if v == 0x01
    then ok not_ok
    else if v == 0x02
    then ok unknown_service
    else if v == 0x03
    then ok unknown_method
    else if v == 0x04
    then ok not_ready
    else if v == 0x05
    then ok not_reachable
    else if v == 0x06
    then ok timeout
    else if v == 0x07
    then ok wrong_protocol_version
    else second_eight v

-- A code as `try_from` makes it: the two open ranges carry a number of their range.
abbrev pub IsCode : ReturnCode → Type 0
IsCode (generic_error v) = (0x10 ≤ v) × (v ≤ 0x1f)
IsCode (interface_error v) = (0x20 ≤ v) × (v ≤ 0x5e)
IsCode c = Unit {0}

-- Writing a code and reading it back.
pub try_from-as_u8 : (c : ReturnCode) → IsCode c → try_from (as_u8 c) ≡ ok c
unfolding try_from second_eight ranges as_u8
try_from-as_u8 (generic_error v) h = ground arith
try_from-as_u8 (interface_error v) h = ground arith
try_from-as_u8 okay h = refl
try_from-as_u8 _ h = refl

ranges_ok : (v : ℕ) (c : ReturnCode) → ranges v ≡ ok c → (as_u8 c ≡ v) × IsCode c × (v ≤ 0x5e)
unfolding ranges as_u8
ranges_ok v c h = ground arith

second_eight_ok :
    (v : ℕ) (c : ReturnCode) → second_eight v ≡ ok c → (as_u8 c ≡ v) × IsCode c × (v ≤ 0x5e)
unfolding second_eight as_u8
second_eight_ok v c h = ground (arith, ranges_ok v c)

-- A number that is read as a return code is what this code is written as, is at most 0x5e, and is
-- in the range of the code if that is a generic or an interface error.
pub as_u8-try_from :
    (v : ℕ) (c : ReturnCode) → try_from v ≡ ok c → (as_u8 c ≡ v) × IsCode c × (v ≤ 0x5e)
unfolding try_from as_u8
as_u8-try_from v c h = ground (arith, second_eight_ok v c)

pub try_from-ne-panic : (v : ℕ) → try_from v ≢ panic
unfolding try_from second_eight ranges
try_from-ne-panic v h = ground arith
