-- ===== src/E2e/Protect.antt =====
-- src/e2e/e2e_protector.rs. The output buffer and the state are passed on; on an error both stay as
-- they were.
use simple_someip.Prelude.{
  ◌≢◌, Bool-cases, inl, inr, ℕ, ◌+◌, ◌≤◌, ◌≡◌, refl, arith, List, [], ◌∷◌, ◌++◌, length, drop, ltb,
  le→ltb, Result, ok, panic, ◌>>=◌, ◌>>◌, fail_if,
}
use simple_someip.Bytes.{to_be16, to_be32, to_le16}
use simple_someip.Bytes.Copy.{copy_at, copy_at-append}
use simple_someip.E2e.{
  Profile4Config, Profile5Config, Profile4State, Profile5State, E2eError, buffer_too_small,
}
use simple_someip.E2e.Crc.{Crc, compute_crc32_p4, compute_crc16_p5, compute_crc16_p5_with_header}
use simple_someip.E2e.Sequence.{wrapping_add}

abbrev pub profile4_header_size : ℕ
profile4_header_size = 12

abbrev pub profile5_header_size : ℕ
profile5_header_size = 3

unfoldable pub protect_profile4 :
    Crc 4294967296
    → Profile4Config
    → Profile4State
    → List ℕ
    → List ℕ
    → Result E2eError (ℕ × Profile4State × List ℕ)
protect_profile4 crc config state payload output = do
  let total_length = profile4_header_size + length payload
  fail_if (ltb (length output) total_length) (buffer_too_small total_length (length output))
  fail_if (ltb 65535 total_length) (buffer_too_small total_length (length output))
  let counter = state.protect_counter
  let sum = compute_crc32_p4 crc total_length counter config.data_id payload
  o₁ ← copy_at output 0 2 (to_be16 total_length)
  o₂ ← copy_at o₁ 2 4 (to_be16 counter)
  o₃ ← copy_at o₂ 4 8 (to_be32 config.data_id)
  o₄ ← copy_at o₃ 8 12 (to_be32 sum)
  o₅ ← copy_at o₄ profile4_header_size total_length payload
  ok (total_length, record state { protect_counter = wrapping_add 65536 counter 1 }, o₅)

-- The common body of `protect_profile5` and `protect_profile5_with_header`, which differ in the
-- checksum.
unfoldable pub protect5 :
    (ℕ → ℕ) → Profile5State → List ℕ → List ℕ → Result E2eError (ℕ × Profile5State × List ℕ)
protect5 sum_of state payload output = do
  let total_length = profile5_header_size + length payload
  fail_if (ltb (length output) total_length) (buffer_too_small total_length (length output))
  let counter = state.protect_counter
  o₁ ← copy_at output 0 2 (to_le16 (sum_of counter))
  o₂ ← copy_at o₁ 2 3 (counter ∷ [])
  o₃ ← copy_at o₂ profile5_header_size total_length payload
  ok (total_length, record state { protect_counter = wrapping_add 256 counter 1 }, o₃)

unfoldable pub protect_profile5 :
    Crc 65536
    → Profile5Config
    → Profile5State
    → List ℕ
    → List ℕ
    → Result E2eError (ℕ × Profile5State × List ℕ)
unfolding protect5
protect_profile5 crc config state payload output =
    protect5 (λ counter. compute_crc16_p5 crc config.data_id counter payload) state payload output

unfoldable pub protect_profile5_with_header :
    Crc 65536
    → Profile5Config
    → Profile5State
    → List ℕ
    → List ℕ
    → List ℕ
    → Result E2eError (ℕ × Profile5State × List ℕ)
unfolding protect5
protect_profile5_with_header crc config state payload upper_header output =
    protect5
      (λ counter. compute_crc16_p5_with_header crc config.data_id counter payload upper_header)
      state payload output

-- What a protected payload looks like on the wire.
unfoldable pub profile4_bytes : Crc 4294967296 → Profile4Config → ℕ → List ℕ → List ℕ
profile4_bytes crc config counter payload =
    let total_length = profile4_header_size + length payload in
    (((to_be16 total_length ++ to_be16 counter) ++ to_be32 config.data_id)
      ++ to_be32 (compute_crc32_p4 crc total_length counter config.data_id payload))
    ++ payload

unfoldable pub profile5_bytes : (ℕ → ℕ) → ℕ → List ℕ → List ℕ
profile5_bytes sum_of counter payload = (to_le16 (sum_of counter) ++ (counter ∷ [])) ++ payload

pub protect_profile4-eq :
    (crc : Crc 4294967296) (config : Profile4Config) (state : Profile4State)
    → (payload output : List ℕ) → profile4_header_size + length payload ≤ length output
    → profile4_header_size + length payload ≤ 65535
    → protect_profile4 crc config state payload output
      ≡ ok (
        profile4_header_size + length payload,
        record state { protect_counter = wrapping_add 65536 state.protect_counter 1 },
        profile4_bytes crc config state.protect_counter payload
            ++ drop (profile4_header_size + length payload) output,
      )
unfolding protect_profile4 profile4_bytes to_be16 to_be32
protect_profile4-eq crc config state payload output fits small =
    let n = profile4_header_size + length payload in
    let c = state.protect_counter in
    let sum = compute_crc32_p4 crc n c config.data_id payload in
    let a = to_be16 n in
    let b = a ++ to_be16 c in
    let d = b ++ to_be32 config.data_id in
    let e = d ++ to_be32 sum in
    rw
      (
        le→ltb (length output) n fits,
        le→ltb 65535 n small,
        copy_at-append output [] (to_be16 n) 0 2 refl refl (omega arith),
        copy_at-append output a (to_be16 c) 2 4 refl refl (omega arith),
        copy_at-append output b (to_be32 config.data_id) 4 8 refl refl (omega arith),
        copy_at-append output d (to_be32 sum) 8 12 refl refl (omega arith),
        copy_at-append output e payload 12 n refl refl fits,
      )
      refl

pub protect5-eq :
    (sum_of : ℕ → ℕ) (state : Profile5State) (payload output : List ℕ)
    → profile5_header_size + length payload ≤ length output
    → protect5 sum_of state payload output
      ≡ ok (
        profile5_header_size + length payload,
        record state { protect_counter = wrapping_add 256 state.protect_counter 1 },
        profile5_bytes sum_of state.protect_counter payload
            ++ drop (profile5_header_size + length payload) output,
      )
unfolding protect5 profile5_bytes to_le16
protect5-eq sum_of state payload output fits =
    let n = profile5_header_size + length payload in
    let c = state.protect_counter in
    let a = to_le16 (sum_of c) in
    rw
      (
        le→ltb (length output) n fits,
        copy_at-append output [] (to_le16 (sum_of c)) 0 2 refl refl (omega arith),
        copy_at-append output a (c ∷ []) 2 3 refl refl (omega arith),
        copy_at-append output (a ++ (c ∷ [])) payload 3 n refl refl fits,
      )
      refl

pub protect_profile4-ne-panic :
    (crc : Crc 4294967296) (config : Profile4Config) (state : Profile4State)
    → (payload output : List ℕ) → protect_profile4 crc config state payload output ≢ panic
protect_profile4-ne-panic crc config state payload output h =
    let n = profile4_header_size + length payload in
    elim (Bool-cases (ltb (length output) n)) [
      | inl short ↦ absurd (unfold protect_profile4 in ground (arith, short, h))
      | inr long ↦ elim (Bool-cases (ltb 65535 n)) [
        | inl large ↦ absurd (unfold protect_profile4 in ground (arith, long, large, h))
        | inr small ↦
            let done =
              protect_profile4-eq crc config state payload output (ground (arith, long))
                (ground (arith, small)) in
            absurd (ground (arith, done, h))
      ]
    ]

pub protect5-ne-panic :
    (sum_of : ℕ → ℕ) (state : Profile5State) (payload output : List ℕ)
    → protect5 sum_of state payload output ≢ panic
protect5-ne-panic sum_of state payload output h =
    let n = profile5_header_size + length payload in
    elim (Bool-cases (ltb (length output) n)) [
      | inl short ↦ absurd (unfold protect5 in ground (arith, short, h))
      | inr long ↦
          let done = protect5-eq sum_of state payload output (ground (arith, long)) in
          absurd (ground (arith, done, h))
    ]
