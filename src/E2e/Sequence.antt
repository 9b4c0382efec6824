-- ===== src/E2e/Sequence.antt =====
-- `check_sequence_profile4` and `check_sequence_profile5` of src/e2e/e2e_checker.rs: a received
-- counter against the last one.
use simple_someip.Prelude.{
  ℕ, ◌+◌, ◌-◌, ◌%◌, ◌<◌, ◌≡◌, arith, ◌==◌, leb, if◌then◌else◌, Option, none, some,
}
use simple_someip.E2e.{E2eCheckStatus, okay, repeated, ok_some_lost, wrong_sequence}

-- `wrapping_sub` on a word with `bound` values.
unfoldable pub wrapping_sub : ℕ → ℕ → ℕ → ℕ
wrapping_sub bound a b = (a + bound - b) % bound

unfoldable pub wrapping_add : ℕ → ℕ → ℕ → ℕ
wrapping_add bound a b = (a + b) % bound

-- The four arms on the distance of the counters.
unfoldable pub status_of : ℕ → ℕ → E2eCheckStatus
status_of delta max_delta =
    if delta == 0
    then repeated
    else if delta == 1
    then okay
    else if leb delta max_delta
    then ok_some_lost
    else wrong_sequence

unfoldable pub check_sequence_profile4 : Option ℕ → ℕ → ℕ → E2eCheckStatus
check_sequence_profile4 none received_counter max_delta = okay
check_sequence_profile4 (some last_counter) received_counter max_delta =
    status_of (wrapping_sub 65536 received_counter last_counter) max_delta

unfoldable pub check_sequence_profile5 : Option ℕ → ℕ → ℕ → E2eCheckStatus
check_sequence_profile5 none received_counter max_delta = okay
check_sequence_profile5 (some last_counter) received_counter max_delta =
    status_of (wrapping_sub 256 received_counter last_counter) max_delta

pub wrapping_sub-wrapping_add16 :
    (last k : ℕ)
    → last < 65536
    → k < 65536
    → wrapping_sub 65536 (wrapping_add 65536 last k) last ≡ k
unfolding wrapping_sub wrapping_add
wrapping_sub-wrapping_add16 last k p q = omega arith

pub wrapping_sub-wrapping_add8 :
    (last k : ℕ) → last < 256 → k < 256 → wrapping_sub 256 (wrapping_add 256 last k) last ≡ k
unfolding wrapping_sub wrapping_add
wrapping_sub-wrapping_add8 last k p q = omega arith
