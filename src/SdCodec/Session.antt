-- ===== src/SdCodec/Session.antt =====
-- `next_sd_session` of src/sd_codec.rs: the counter is an `AtomicU16`, whose `fetch_add` wraps
-- around. Calls come one after another.
use simple_someip.Prelude.{
  ℕ, zero, suc, ◌+◌, ◌-◌, ◌%◌, ◌≤◌, ◌<◌, ◌≡◌, ◌≢◌, ap, ◌∙◌, arith, ◌==◌, if◌then◌else◌, Option,
  none, some,
}
use simple_someip.Bytes.{IsU16}

-- The session id and the counter after the call. The loop is on fuel: a round that reads 0 is
-- followed by another.
unfoldable pub next_sd_session : ℕ → ℕ → Option (ℕ × ℕ)
next_sd_session zero counter = none
next_sd_session (suc fuel) counter =
    let after = (counter + 1) % 65536 in
    let again = next_sd_session fuel after in if counter == 0 then again else some (counter, after)

-- The session id that a counter stands for: 0 is skipped.
abbrev pub session_of : ℕ → ℕ
session_of counter = if counter == 0 then 1 else counter

-- What the call behind a number of calls returns, each on the counter that the last one left.
unfoldable pub call_behind : ℕ → ℕ → Option (ℕ × ℕ)
call_behind zero counter = next_sd_session 2 counter
call_behind (suc calls) counter = elim (call_behind calls counter) [
  | none ↦ none
  | some (session, after) ↦ next_sd_session 2 after
]

-- The loop ends in its second round at the latest, for a counter in range: it returns the id that
-- the counter stands for, between 1 and 65535, and leaves the number behind it, modulo 65536.
pub next_sd_session-ends :
    (counter fuel : ℕ)
    → IsU16 counter
    → 2 ≤ fuel
    → (next_sd_session fuel counter ≡ some (session_of counter, (session_of counter + 1) % 65536))
      × (1 ≤ session_of counter)
      × (session_of counter < 65536)
unfolding next_sd_session
next_sd_session-ends counter zero h few = elim few [ ]
next_sd_session-ends counter (suc zero) h few = absurd (omega arith)
next_sd_session-ends counter (suc (suc fuel)) h few = ground arith

-- The ids go round from 1 to 65535.
abbrev id_at : ℕ → ℕ → ℕ
id_at calls counter = (session_of counter + 65534 + calls) % 65535 + 1

call_behind-eq :
    (calls counter : ℕ)
    → IsU16 counter
    → call_behind calls counter ≡ some (id_at calls counter, (id_at calls counter + 1) % 65536)
unfolding call_behind
call_behind-eq zero counter h =
    let (ends, low, high) = next_sd_session-ends counter 2 h (omega arith) in
    let same : session_of counter ≡ id_at 0 counter = omega arith in
    ends ∙ ap (λ (n : ℕ). some (n, (n + 1) % 65536)) same
call_behind-eq (suc calls) counter h =
    let n = id_at calls counter in
    let after = (n + 1) % 65536 in
    let (ends, low, high) = next_sd_session-ends after 2 (omega arith) (omega arith) in
    let same : session_of after ≡ id_at (suc calls) counter = ground arith in
    rw (call_behind-eq calls counter h) (ends ∙ ap (λ (n : ℕ). some (n, (n + 1) % 65536)) same)

-- Of the calls on a counter in range, two that are fewer than 65535 calls apart return different
-- session ids.
pub sessions-distinct :
    (counter first later a b x y : ℕ)
    → IsU16 counter
    → first < later
    → later - first < 65535
    → call_behind first counter ≡ some (a, x)
    → call_behind later counter ≡ some (b, y)
    → a ≢ b
sessions-distinct counter first later a b x y h order near p q same =
    let p₀ : a ≡ id_at first counter = cc (p, call_behind-eq first counter h) in
    let q₀ : b ≡ id_at later counter = cc (q, call_behind-eq later counter h) in omega arith
