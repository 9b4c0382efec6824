-- ===== src/E2e/Check.antt =====
-- src/e2e/e2e_checker.rs. A check gives its result and the state after it; it has no errors, and an
-- index or slice out of bounds would be a panic.
use simple_someip.Prelude.{
  ℕ, ◌+◌, ◌%◌, ◌/◌, ◌≤◌, ◌<◌, ◌≡◌, ◌⊎◌, refl, arith, List, length, drop, ltb, le→ltb, not, ◌==◌,
  ==_refl, if◌then◌else◌, some, Result, ok, ◌>>=◌,
}
use simple_someip.Bytes.{
  IsU16, IsU32, byte_at, index, slice_from, from_be16, from_le16, from_be32, to_be16, to_be32,
  to_le16,
}
use simple_someip.Bytes.Facts.{index-ok, slice_from-ok, from_be16-to_be16, from_be32-to_be32}
use simple_someip.E2e.{
  Profile4Config, Profile5Config, Profile4State, Profile5State, E2eError, E2eCheckResult, error,
  success, bad_argument, crc_error,
}
use simple_someip.E2e.Crc.{
  Crc, compute_crc32_p4, compute_crc16_p5, compute_crc16_p5_with_header, compute_crc32_p4-lt,
}
use simple_someip.E2e.Sequence.{check_sequence_profile4, check_sequence_profile5}
use simple_someip.E2e.Protect.{
  profile4_header_size, profile5_header_size, profile4_bytes, profile5_bytes,
}

-- `u16::from_be_bytes([protected[i], protected[i + 1]])`, and the same for a `u32`.
unfoldable pub word16 : List ℕ → ℕ → Result E2eError ℕ
word16 bs i = do a ← index bs i; b ← index bs (i + 1); ok (from_be16 a b)

unfoldable pub word32 : List ℕ → ℕ → Result E2eError ℕ
word32 bs i = do
  a ← index bs i
  b ← index bs (i + 1)
  c ← index bs (i + 2)
  d ← index bs (i + 3)
  ok (from_be32 a b c d)

-- From the check of the length on.
unfoldable pub check4_fields :
    Crc 4294967296
    → Profile4Config
    → Profile4State
    → List ℕ
    → ℕ
    → ℕ
    → ℕ
    → ℕ
    → Result E2eError (E2eCheckResult × Profile4State)
check4_fields crc config state protected length_field counter data_id received_crc =
    if not (length_field == length protected)
    then ok (error bad_argument, state)
    else if not (data_id == config.data_id)
    then ok (error bad_argument, state)
    else (do
      payload ← slice_from protected profile4_header_size
      let computed_crc = compute_crc32_p4 crc length_field counter data_id payload
      if not (computed_crc == received_crc)
          then ok (error crc_error, state)
          else (let status =
                check_sequence_profile4 state.last_counter counter config.max_delta_counter in
              ok (success status counter payload, record state { last_counter = some counter })))

unfoldable pub check_profile4 :
    Crc 4294967296
    → Profile4Config
    → Profile4State
    → List ℕ
    → Result E2eError (E2eCheckResult × Profile4State)
check_profile4 crc config state protected =
    if ltb (length protected) profile4_header_size then ok (error bad_argument, state) else (do
      length_field ← word16 protected 0
      counter ← word16 protected 2
      data_id ← word32 protected 4
      received_crc ← word32 protected 8
      check4_fields crc config state protected length_field counter data_id received_crc)

-- The common body of `check_profile5` and `check_profile5_with_header`, which differ in the
-- checksum of a counter and a payload.
unfoldable pub check5 :
    (ℕ → List ℕ → ℕ)
    → Profile5Config
    → Profile5State
    → List ℕ
    → Result E2eError (E2eCheckResult × Profile5State)
check5 sum_of config state protected =
    if ltb (length protected) profile5_header_size
    then ok (error bad_argument, state)
    else if not (length protected == profile5_header_size + config.data_length)
    then ok (error bad_argument, state)
    else (do
      a ← index protected 0
      b ← index protected 1
      let received_crc = from_le16 a b
      counter ← index protected 2
      payload ← slice_from protected profile5_header_size
      if not (sum_of counter payload == received_crc)
          then ok (error crc_error, state)
          else (let status =
                check_sequence_profile5 state.last_counter counter config.max_delta_counter in
              ok (success status counter payload, record state { last_counter = some counter })))

unfoldable pub check_profile5 :
    Crc 65536
    → Profile5Config
    → Profile5State
    → List ℕ
    → Result E2eError (E2eCheckResult × Profile5State)
unfolding check5
check_profile5 crc config state protected =
    check5 (λ counter payload. compute_crc16_p5 crc config.data_id counter payload) config state
      protected

unfoldable pub check_profile5_with_header :
    Crc 65536
    → Profile5Config
    → Profile5State
    → List ℕ
    → List ℕ
    → Result E2eError (E2eCheckResult × Profile5State)
unfolding check5
check_profile5_with_header crc config state protected upper_header =
    check5
      (λ counter payload.
        compute_crc16_p5_with_header crc config.data_id counter payload upper_header)
      config state protected

word16-ok :
    (bs : List ℕ) (i : ℕ)
    → i + 1 < length bs
    → word16 bs i ≡ ok (from_be16 (byte_at bs i) (byte_at bs (i + 1)))
unfolding word16
word16-ok bs i h =
    rw (index-ok {E = E2eError} bs i (omega arith), index-ok {E = E2eError} bs (i + 1) h) refl

word32-ok :
    (bs : List ℕ) (i : ℕ)
    → i + 3 < length bs
    → word32 bs i
      ≡ ok (from_be32 (byte_at bs i) (byte_at bs (i + 1)) (byte_at bs (i + 2)) (byte_at bs (i + 3)))
unfolding word32
word32-ok bs i h =
    rw
      (
        index-ok {E = E2eError} bs i (omega arith),
        index-ok {E = E2eError} bs (i + 1) (omega arith),
        index-ok {E = E2eError} bs (i + 2) (omega arith),
        index-ok {E = E2eError} bs (i + 3) h,
      )
      refl

-- A check of a frame that Profile 4 has protected, with an identifier and a counter in range and a
-- total size below 65536: the payload is found, the status is that of the counter against the
-- last one, and the counter is kept.
pub check_profile4-profile4_bytes :
    (crc : Crc 4294967296) (config : Profile4Config) (state : Profile4State)
    → (counter : ℕ) (payload : List ℕ) → IsU32 config.data_id
    → IsU16 counter
    → profile4_header_size + length payload ≤ 65535
    → check_profile4 crc config state (profile4_bytes crc config counter payload)
      ≡ ok (
        success
            (check_sequence_profile4 state.last_counter counter config.max_delta_counter)
            counter
            payload,
        record state { last_counter = some counter },
      )
unfolding check_profile4 check4_fields profile4_bytes to_be16 to_be32
check_profile4-profile4_bytes crc config state counter payload p q small =
    let n = profile4_header_size + length payload in
    let sum = compute_crc32_p4 crc n counter config.data_id payload in
    let frame = profile4_bytes crc config counter payload in
    let whole : length frame ≡ n = omega arith in
    rw
      (
        le→ltb (length frame) 12 (omega arith),
        word16-ok frame 0 (omega arith),
        word16-ok frame 2 (omega arith),
        word32-ok frame 4 (omega arith),
        word32-ok frame 8 (omega arith),
        from_be16-to_be16 n (omega arith),
        from_be16-to_be16 counter q,
        from_be32-to_be32 config.data_id p,
        from_be32-to_be32 sum (compute_crc32_p4-lt crc n counter config.data_id payload),
        whole,
        ==_refl n,
        ==_refl config.data_id,
        slice_from-ok {E = E2eError} frame 12 (omega arith),
        ==_refl sum,
      )
      refl

from_le16-to_le16 : (v : ℕ) → IsU16 v → from_le16 (v % 256) (v / 256 % 256) ≡ v
unfolding from_le16
from_le16-to_le16 v h = omega arith

-- A check of a frame that Profile 5 has protected, with a payload of the configured length, a
-- counter in range and a checksum of 16 bits: the payload is found, the status is that of the
-- counter against the last one, and the counter is kept.
pub check5-profile5_bytes :
    (sum_of : ℕ → List ℕ → ℕ) (config : Profile5Config) (state : Profile5State)
    → (counter : ℕ) (payload : List ℕ) → IsU16 (sum_of counter payload)
    → config.data_length ≡ length payload
    → check5 sum_of config state (profile5_bytes (λ c. sum_of c payload) counter payload)
      ≡ ok (
        success
            (check_sequence_profile5 state.last_counter counter config.max_delta_counter)
            counter
            payload,
        record state { last_counter = some counter },
      )
unfolding check5 profile5_bytes to_le16
check5-profile5_bytes sum_of config state counter payload p q =
    let n = profile5_header_size + length payload in
    let frame = profile5_bytes (λ c. sum_of c payload) counter payload in
    let whole : length frame ≡ n = omega arith in
    rw
      (
        le→ltb (length frame) 3 (omega arith),
        whole,
        q,
        ==_refl n,
        index-ok {E = E2eError} frame 0 (omega arith),
        index-ok {E = E2eError} frame 1 (omega arith),
        index-ok {E = E2eError} frame 2 (omega arith),
        slice_from-ok {E = E2eError} frame 3 (omega arith),
        from_le16-to_le16 (sum_of counter payload) p,
        ==_refl (sum_of counter payload),
      )
      refl

-- The branches of the check of a Profile 4 frame.
abbrev pub Cases4 : Crc 4294967296 → Profile4Config → Profile4State → List ℕ → Type 0
Cases4 crc config state protected =
    let length_field = from_be16 (byte_at protected 0) (byte_at protected 1) in
    let counter = from_be16 (byte_at protected 2) (byte_at protected 3) in
    let data_id =
      from_be32 (byte_at protected 4) (byte_at protected 5) (byte_at protected 6)
        (byte_at protected 7) in
    let received =
      from_be32 (byte_at protected 8) (byte_at protected 9) (byte_at protected 10)
        (byte_at protected 11) in
    let result = check_profile4 crc config state protected in
    let payload = drop 12 protected in
    (result ≡ ok (error bad_argument, state))
    ⊎ ((result ≡ ok (error crc_error, state))
        ⊎ ((12 ≤ length protected)
            × (length_field ≡ length protected)
            × (data_id ≡ config.data_id)
            × (compute_crc32_p4 crc length_field counter data_id payload ≡ received)
            × (result
                ≡ ok (
                  success
                      (check_sequence_profile4 state.last_counter counter config.max_delta_counter)
                      counter payload,
                  record state { last_counter = some counter },
                ))))

-- On every frame the check of Profile 4 gives a result: the frame is rejected, as a bad argument or
-- for its checksum, and the state stays as it was; or the frame has the length and the identifier
-- that its fields say and the checksum of its contents, and its payload, counter and status are
-- given and the counter is kept. No index or slice panics.
pub check_profile4-Cases4 :
    (crc : Crc 4294967296) (config : Profile4Config) (state : Profile4State) (protected : List ℕ)
    → Cases4 crc config state protected
unfolding check_profile4 check4_fields
check_profile4-Cases4 crc config state protected = ground (
  arith,
  word16-ok protected 0,
  word16-ok protected 2,
  word32-ok protected 4,
  word32-ok protected 8,
  slice_from-ok {E = E2eError} protected 12,
)
