-- ===== src/E2e/Link.antt =====
-- A sender and a receiver of src/e2e in turn.
use simple_someip.Prelude.{
  ℕ, ◌+◌, ◌≤◌, ◌<◌, ◌≡◌, refl, sym, ◌∙◌, arith, List, [], ◌∷◌, ◌++◌, length, length-append,
  length-drop, take, drop, take-append_length, All, Option, none, some, Result, ok, ◌>>=◌,
}
use simple_someip.Bytes.{IsU16, IsU32, to_be16, to_be32, to_le16}
use simple_someip.E2e.{
  Profile4Config, Profile5Config, Profile4State, Profile5State, E2eError, E2eCheckResult, success,
  okay,
}
use simple_someip.E2e.Crc.{Crc, compute_crc16_p5_with_header, compute_crc16_p5_with_header-lt}
use simple_someip.E2e.Sequence.{
  wrapping_add, status_of, check_sequence_profile4, check_sequence_profile5,
  wrapping_sub-wrapping_add16,
}
use simple_someip.E2e.Protect.{
  protect_profile4, protect_profile4-eq, profile4_bytes, profile4_header_size, profile5_header_size,
  protect_profile5_with_header, protect5-eq, profile5_bytes,
}
use simple_someip.E2e.Check.{
  check_profile4, check_profile4-profile4_bytes, check_profile5_with_header, check5-profile5_bytes,
}

-- Each payload is protected into the same buffer, and the frame is checked.
unfoldable pub exchange :
    Crc 4294967296
    → Profile4Config
    → Profile4State
    → Profile4State
    → List ℕ
    → List (List ℕ)
    → Result E2eError (List E2eCheckResult)
exchange crc config sender receiver buffer [] = ok []
exchange crc config sender receiver buffer (payload ∷ payloads) = do
  (n, next_sender, output) ← protect_profile4 crc config sender payload buffer
  (result, next_receiver) ← check_profile4 crc config receiver (take n output)
  results ← exchange crc config next_sender next_receiver output payloads
  ok (result ∷ results)

-- What a receiver should see: every payload, with the status Ok and the counters in turn.
unfoldable pub delivered : ℕ → List (List ℕ) → List E2eCheckResult
delivered counter [] = []
delivered counter (payload ∷ payloads) =
    success okay counter payload ∷ delivered (wrapping_add 65536 counter 1) payloads

-- The receiver has seen nothing, or the frame before the sender's next one.
abbrev pub InStep : ℕ → Option ℕ → Type 0
InStep counter none = Unit {0}
InStep counter (some last) = (last < 65536) × (counter ≡ wrapping_add 65536 last 1)

abbrev pub Fits : List ℕ → List ℕ → Type 0
Fits buffer payload = (12 + length payload ≤ length buffer) × (12 + length payload ≤ 65535)

InStep-okay :
    (counter max_delta : ℕ) (last : Option ℕ)
    → InStep counter last
    → check_sequence_profile4 last counter max_delta ≡ okay
unfolding check_sequence_profile4 status_of
InStep-okay counter max_delta none h = refl
InStep-okay counter max_delta (some last) h =
    rw (h.1, wrapping_sub-wrapping_add16 last 1 h.0 (omega arith)) refl

wrapping_add-lt : (a : ℕ) → wrapping_add 65536 a 1 < 65536
unfolding wrapping_add
wrapping_add-lt a = omega arith

length-profile4_bytes :
    (crc : Crc 4294967296) (config : Profile4Config) (counter : ℕ) (payload : List ℕ)
    → length (profile4_bytes crc config counter payload) ≡ 12 + length payload
unfolding profile4_bytes to_be16 to_be32
length-profile4_bytes crc config counter payload = omega arith

Fits-resized :
    (buffer other : List ℕ) (payloads : List (List ℕ))
    → length buffer ≡ length other
    → All (Fits buffer) payloads
    → All (Fits other) payloads
Fits-resized buffer other [] e h = tt
Fits-resized buffer other (p ∷ ps) e h = ((omega arith, h.0.1), Fits-resized buffer other ps e h.1)

-- The frame of one step: what the sender leaves in the buffer, and the buffer keeps its size.
module _ (frame payload buffer : List ℕ) (n : ℕ) (whole : length frame ≡ n)
    (fits : n ≤ length buffer) where
  framed : take n (frame ++ drop n buffer) ≡ frame
  framed = take-append_length frame (drop n buffer) n (sym whole)

  resized : length buffer ≡ length (frame ++ drop n buffer)
  resized = omega (arith, length-append frame (drop n buffer), length-drop n buffer)

-- Over a link that loses nothing, every payload that a sender protects with Profile 4 is checked as
-- Ok and handed on unchanged, the counters wrapping around at 65536: for an identifier and a
-- counter in range, payloads that fit the buffer and a frame, and a receiver that has seen nothing
-- or just the frame before.
pub exchange-delivered :
    (crc : Crc 4294967296) (config : Profile4Config) (sender receiver : Profile4State)
    → (buffer : List ℕ) (payloads : List (List ℕ)) → IsU32 config.data_id
    → IsU16 sender.protect_counter
    → InStep sender.protect_counter receiver.last_counter
    → All (Fits buffer) payloads
    → exchange crc config sender receiver buffer payloads
      ≡ ok (delivered sender.protect_counter payloads)
unfolding exchange delivered
exchange-delivered crc config sender receiver buffer [] p q step fits = refl
exchange-delivered crc config sender receiver buffer (payload ∷ payloads) p q step fits =
    let c = sender.protect_counter in
    let n = profile4_header_size + length payload in
    let frame = profile4_bytes crc config c payload in
    let whole = length-profile4_bytes crc config c payload in
    let output = frame ++ drop n buffer in
    let next = wrapping_add 65536 c 1 in
    rw
      (
        protect_profile4-eq crc config sender payload buffer fits.0.0 fits.0.1,
        framed frame payload buffer n whole fits.0.0,
        check_profile4-profile4_bytes crc config receiver c payload p q fits.0.1,
        InStep-okay c config.max_delta_counter receiver.last_counter step,
        exchange-delivered crc config (record sender { protect_counter = next })
            (record receiver { last_counter = some c }) output payloads p (wrapping_add-lt c)
            (q, refl)
            (Fits-resized buffer output payloads (resized frame payload buffer n whole fits.0.0)
              fits.1),
      )
      refl

-- A Profile 4 frame whose counter is `k` after the last one, modulo 65536, is checked as repeated
-- for 0, Ok for 1, Ok with some lost up to the configured distance, and out of sequence beyond it;
-- in each case the payload is found and the counter is kept.
pub check_profile4-behind :
    (crc : Crc 4294967296) (config : Profile4Config) (sent last k : ℕ) (payload : List ℕ)
    → IsU32 config.data_id
    → IsU16 last
    → IsU16 k
    → 12 + length payload ≤ 65535
    → check_profile4 crc config
        (record { protect_counter = sent; last_counter = some last })
        (profile4_bytes crc config (wrapping_add 65536 last k) payload)
      ≡ ok (
        success (status_of k config.max_delta_counter) (wrapping_add 65536 last k) payload,
        record { protect_counter = sent; last_counter = some (wrapping_add 65536 last k) },
      )
unfolding check_sequence_profile4
check_profile4-behind crc config sent last k payload p q r small =
    let range : wrapping_add 65536 last k < 65536 = unfold wrapping_add in omega arith in
    check_profile4-profile4_bytes crc config
      (record { protect_counter = sent; last_counter = some last }) (wrapping_add 65536 last k)
      payload p range small
    ∙ rw (wrapping_sub-wrapping_add16 last k q r) refl

-- One payload sent with Profile 5 and an upper header, and checked with the same upper header.
unfoldable pub exchange5 :
    Crc 65536
    → Profile5Config
    → Profile5State
    → Profile5State
    → List ℕ
    → List ℕ
    → List ℕ
    → Result E2eError (E2eCheckResult × Profile5State × Profile5State)
exchange5 crc config sender receiver payload upper_header buffer = do
  (n, next, output) ← protect_profile5_with_header crc config sender payload upper_header buffer
  (result, kept) ← check_profile5_with_header crc config receiver (take n output) upper_header
  ok (result, next, kept)

-- A payload that is protected with Profile 5 and an upper header, and checked with the same upper
-- header, is found unchanged with its counter; the status is that of the counter against the last
-- one, and each end keeps its counter. The payload has the configured length and fits the buffer.
pub exchange5-delivered :
    (crc : Crc 65536) (config : Profile5Config) (sender receiver : Profile5State)
    → (payload upper_header buffer : List ℕ) → config.data_length ≡ length payload
    → 3 + length payload ≤ length buffer
    → exchange5 crc config sender receiver payload upper_header buffer
      ≡ ok (
        success
            (check_sequence_profile5 receiver.last_counter sender.protect_counter
              config.max_delta_counter)
            sender.protect_counter
            payload,
        record sender { protect_counter = wrapping_add 256 sender.protect_counter 1 },
        record receiver { last_counter = some sender.protect_counter },
      )
unfolding exchange5 protect_profile5_with_header check_profile5_with_header
exchange5-delivered crc config sender receiver payload upper_header buffer p fits =
    let c = sender.protect_counter in
    let n = profile5_header_size + length payload in
    let sum = compute_crc16_p5_with_header crc config.data_id in
    let frame = profile5_bytes (λ counter. sum counter payload upper_header) c payload in
    let whole : length frame ≡ n = unfold profile5_bytes to_le16 in omega arith in
    rw
      (
        protect5-eq (λ counter. sum counter payload upper_header) sender payload buffer fits,
        framed frame payload buffer n whole fits,
        check5-profile5_bytes (λ counter found. sum counter found upper_header) config receiver c
            payload (compute_crc16_p5_with_header-lt crc config.data_id c payload upper_header) p,
      )
      refl
