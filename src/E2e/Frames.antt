-- ===== src/E2e/Frames.antt =====
-- A frame of any profile of src/e2e, protected at one end and checked at the other.
use simple_someip.Prelude.{ℕ, ◌+◌, ◌≤◌, ◌≡◌, refl, arith, List, ◌++◌, length, drop, some, ok}
use simple_someip.Bytes.{IsU16, IsU32, to_be16, to_be32, to_le16}
use simple_someip.E2e.{E2eCheckStatus, bad_argument}
use simple_someip.E2e.Crc.{
  compute_crc16_p5, compute_crc16_p5-lt, compute_crc16_p5_with_header,
  compute_crc16_p5_with_header-lt,
}
use simple_someip.E2e.Sequence.{check_sequence_profile4, check_sequence_profile5, wrapping_add}
use simple_someip.E2e.Protect.{
  protect_profile5, protect_profile5_with_header, protect_profile4-eq, protect5-eq, profile4_bytes,
  profile5_bytes, profile4_header_size, profile5_header_size,
}
use simple_someip.E2e.Check.{
  check_profile5, check_profile5_with_header, check_profile4-profile4_bytes, check5-profile5_bytes,
}
use simple_someip.E2e.Profile.{
  E2eProfile, E2eState, Crcs, profile4, profile5, profile5_with_header, profile4_state,
  profile5_state, e2e_protect, e2e_check, IsStateOf,
}

abbrev pub overhead : E2eProfile → ℕ
overhead (profile4 config) = profile4_header_size
overhead (profile5 config) = profile5_header_size
overhead (profile5_with_header config) = profile5_header_size

-- The ranges of the sender's fields, and a payload that the profile takes.
abbrev pub IsFrame : E2eProfile → E2eState → List ℕ → Type 0
IsFrame (profile4 config) (profile4_state st) payload =
    IsU32 config.data_id × IsU16 st.protect_counter × (12 + length payload ≤ 65535)
IsFrame (profile5 config) (profile5_state st) payload = config.data_length ≡ length payload
IsFrame (profile5_with_header config) (profile5_state st) payload =
    config.data_length ≡ length payload
IsFrame _ _ payload = ⊥

-- The sender's counter against the last one that the receiver has seen.
abbrev pub status_between : E2eProfile → E2eState → E2eState → E2eCheckStatus
status_between (profile4 config) (profile4_state tx) (profile4_state rx) =
    check_sequence_profile4 rx.last_counter tx.protect_counter config.max_delta_counter
status_between (profile5 config) (profile5_state tx) (profile5_state rx) =
    check_sequence_profile5 rx.last_counter tx.protect_counter config.max_delta_counter
status_between (profile5_with_header config) (profile5_state tx) (profile5_state rx) =
    check_sequence_profile5 rx.last_counter tx.protect_counter config.max_delta_counter
status_between _ _ _ = bad_argument

-- What becomes of a payload: the frame that is left in the front of the output, and what a check of
-- that frame with the same upper header finds.
abbrev pub Protected : Crcs → E2eProfile → E2eState → E2eState → List ℕ → List ℕ → List ℕ → Type 0
Protected crcs p tx rx payload upper_header output =
    (frame : List ℕ) × (next : E2eState) × (after : E2eState) × (e2e_protect crcs p tx payload
        upper_header output
      ≡ ok (overhead p + length payload, next, frame ++ drop (overhead p + length payload) output))
    × (length frame ≡ overhead p + length payload)
    × (e2e_check crcs p rx frame upper_header ≡ ok ((status_between p tx rx, payload), after))

pub e2e_protect-Protected :
    (crcs : Crcs) (p : E2eProfile) (tx rx : E2eState) (payload upper_header output : List ℕ)
    → IsFrame p tx payload
    → IsStateOf p rx
    → overhead p + length payload ≤ length output
    → Protected crcs p tx rx payload upper_header output
unfolding e2e_protect e2e_check protect_profile5 check_profile5 protect_profile5_with_header
    check_profile5_with_header
e2e_protect-Protected crcs (profile4 config) (profile4_state tx) (profile4_state rx) payload
      upper_header output (id, counter, small) s fits =
    let c = tx.protect_counter in
    (
      profile4_bytes crcs.crc32 config c payload,
      profile4_state (record tx { protect_counter = wrapping_add 65536 c 1 }),
      profile4_state (record rx { last_counter = some c }),
      rw (protect_profile4-eq crcs.crc32 config tx payload output fits small) refl,
      unfold profile4_bytes to_be16 to_be32 in omega arith,
      rw (check_profile4-profile4_bytes crcs.crc32 config rx c payload id counter small) refl,
    )
e2e_protect-Protected crcs (profile5 config) (profile5_state tx) (profile5_state rx) payload
      upper_header output same s fits =
    let c = tx.protect_counter in
    let sum = compute_crc16_p5 crcs.crc16 config.data_id in
    (
      profile5_bytes (λ counter. sum counter payload) c payload,
      profile5_state (record tx { protect_counter = wrapping_add 256 c 1 }),
      profile5_state (record rx { last_counter = some c }),
      rw (protect5-eq (λ counter. sum counter payload) tx payload output fits) refl,
      unfold profile5_bytes to_le16 in omega arith,
      rw
          (check5-profile5_bytes sum config rx c payload
            (compute_crc16_p5-lt crcs.crc16 config.data_id c payload) same)
          refl,
    )
e2e_protect-Protected crcs (profile5_with_header config) (profile5_state tx) (profile5_state rx)
      payload upper_header output same s fits =
    let c = tx.protect_counter in
    let sum = compute_crc16_p5_with_header crcs.crc16 config.data_id in
    (
      profile5_bytes (λ counter. sum counter payload upper_header) c payload,
      profile5_state (record tx { protect_counter = wrapping_add 256 c 1 }),
      profile5_state (record rx { last_counter = some c }),
      rw (protect5-eq (λ counter. sum counter payload upper_header) tx payload output fits) refl,
      unfold profile5_bytes to_le16 in omega arith,
      rw
          (check5-profile5_bytes (λ counter found. sum counter found upper_header) config rx c
            payload
            (compute_crc16_p5_with_header-lt crcs.crc16 config.data_id c payload upper_header) same)
          refl,
    )
e2e_protect-Protected crcs (profile4 config) (profile4_state tx) (profile5_state rx) payload
      upper_header output same s fits =
    elim s [ ]
e2e_protect-Protected crcs (profile4 config) (profile5_state tx) rx payload upper_header output same
      s fits =
    elim same [ ]
e2e_protect-Protected crcs (profile5 config) (profile4_state tx) rx payload upper_header output same
      s fits =
    elim same [ ]
e2e_protect-Protected crcs (profile5 config) (profile5_state tx) (profile4_state rx) payload
      upper_header output same s fits =
    elim s [ ]
e2e_protect-Protected crcs (profile5_with_header config) (profile4_state tx) rx payload upper_header
      output same s fits =
    elim same [ ]
e2e_protect-Protected crcs (profile5_with_header config) (profile5_state tx) (profile4_state rx)
      payload upper_header output same s fits =
    elim s [ ]
