-- ===== src/Server/SdState.antt =====
-- `SdStateManager` of src/server/sd_state.rs: the session id and the latched reboot flag in one
-- 32-bit word. Each call updates the word in one atomic step, so calls come one after another.
use simple_someip.Prelude.{
  ℕ, ◌+◌, ◌*◌, ◌/◌, ◌%◌, ◌≤◌, ◌<◌, ◌≡◌, refl, arith, bit_and, bit_or, Bool, true, false, not, ◌||◌,
  ◌==◌, if◌then◌else◌,
}
use simple_someip.Bits.{bit_and_low, bit_and_shl, bit_or_shl_right}
use simple_someip.Sd.Flags.{RebootFlag, recently_rebooted, continuous}

abbrev pub sid_mask : ℕ
sid_mask = 0xffff

abbrev pub wrapped_bit : ℕ
wrapped_bit = 0x10000

unfoldable pub with_initial : ℕ → ℕ
with_initial initial = initial

-- `match prev_sid.wrapping_add(1)`.
unfoldable pub successor : ℕ → ℕ
successor prev_sid = let n = (prev_sid + 1) % 65536 in if n == 0 then 1 else n

-- The session id, the reboot flag and the word after the call.
unfoldable pub next_session_id_with_reboot_flag : ℕ → ℕ × RebootFlag × ℕ
next_session_id_with_reboot_flag state =
    let prev_sid = bit_and state sid_mask % 65536 in
    let prev_wrapped = not (bit_and state wrapped_bit == 0) in
    let next_sid = successor prev_sid in
    let next_wrapped = prev_wrapped || prev_sid == 65535 in
    let next_state = bit_or next_sid (if next_wrapped then wrapped_bit else 0) in
    (next_sid, (if next_wrapped then continuous else recently_rebooted), next_state)

unfoldable pub reboot_flag : ℕ → RebootFlag
reboot_flag state = if not (bit_and state wrapped_bit == 0) then continuous else recently_rebooted

sid_part : (state : ℕ) → bit_and state sid_mask % 65536 ≡ state % 65536
sid_part state = omega (arith, bit_and_low 16 state 0xffff refl)

wrapped_part : (state : ℕ) → bit_and state wrapped_bit ≡ state / 65536 % 2 * 65536
wrapped_part state = omega (arith, bit_and_shl 16 state 1, bit_and_low 1 (state / 65536) 1 refl)

successor-range : (sid : ℕ) → sid < 65536 → (1 ≤ successor sid) × (successor sid < 65536)
unfolding successor
successor-range sid h = ground arith

-- The word that is stored, as arithmetic.
abbrev word_of : ℕ → Bool → ℕ
word_of sid wrapped = if wrapped then 65536 + sid else sid

stored :
    (sid : ℕ) (wrapped : Bool)
    → sid < 65536
    → bit_or sid (if wrapped then wrapped_bit else 0) ≡ word_of sid wrapped
stored sid true h = omega (arith, bit_or_shl_right 16 1 sid h)
stored sid false h = omega (arith, bit_or_shl_right 16 0 sid h)

-- The session id of a word, as every call sees it.
abbrev pub sid_of : ℕ → ℕ
sid_of state = state % 65536

wrapped_test : (state : ℕ) → not (bit_and state wrapped_bit == 0) ≡ (state / 65536 % 2 == 1)
wrapped_test state = rw (wrapped_part state) (ground arith)

-- What a call returns and what it stores.
pub record Step (state : ℕ) : Type 0 where
  pub sid : ℕ
  pub wrapped : Bool
  pub call :
      next_session_id_with_reboot_flag state
      ≡ (sid, (if wrapped then continuous else recently_rebooted), word_of sid wrapped)
  pub sid_eq : sid ≡ successor (sid_of state)
  pub wrapped_eq : wrapped ≡ (state / 65536 % 2 == 1) || (sid_of state == 65535)
  pub stored_sid : sid_of (word_of sid wrapped) ≡ sid
  pub stored_wrapped : (word_of sid wrapped / 65536 % 2 == 1) ≡ wrapped

word_of-parts :
    (sid : ℕ) (wrapped : Bool)
    → sid < 65536
    → (sid_of (word_of sid wrapped) ≡ sid) × ((word_of sid wrapped / 65536 % 2 == 1) ≡ wrapped)
word_of-parts sid true h = (omega arith, ground arith)
word_of-parts sid false h = (omega arith, ground arith)

pub step : (state : ℕ) → Step state
unfolding next_session_id_with_reboot_flag
step state =
    let sid = successor (sid_of state) in
    let wrapped = (state / 65536 % 2 == 1) || (sid_of state == 65535) in
    let small = (successor-range (sid_of state) (omega arith)).1 in
    let parts = word_of-parts sid wrapped small in
    record {
      sid = sid;
      wrapped = wrapped;
      call = rw (sid_part state, wrapped_test state, stored sid wrapped small) refl;
      sid_eq = refl;
      wrapped_eq = refl;
      stored_sid = parts.0;
      stored_wrapped = parts.1;
    }

pub reboot_flag-eq :
    (state : ℕ)
    → reboot_flag state ≡ (if state / 65536 % 2 == 1 then continuous else recently_rebooted)
unfolding reboot_flag
reboot_flag-eq state = rw (wrapped_test state) refl

-- Every call returns a session id from 1 to 65535, and the word that it stores has this id and the
-- reboot flag that was returned, so that the pair is what a later reader sees. The id after 65535
-- is 1, every other id is the one before plus one; once the flag is Continuous it stays so.
pub next_session_id-stored :
    (state : ℕ)
    → (1 ≤ (next_session_id_with_reboot_flag state).0)
      × ((next_session_id_with_reboot_flag state).0 ≤ 65535)
      × ((next_session_id_with_reboot_flag state).0
          ≡ (if sid_of state == 65535 then 1 else sid_of state + 1))
      × (sid_of (next_session_id_with_reboot_flag state).2
          ≡ (next_session_id_with_reboot_flag state).0)
      × (reboot_flag (next_session_id_with_reboot_flag state).2
          ≡ (next_session_id_with_reboot_flag state).1)
      × ((next_session_id_with_reboot_flag state).1
          ≡ (if sid_of state == 65535 then continuous else reboot_flag state))
unfolding successor
next_session_id-stored state =
    let s = step state in
    rw
      (
        s.call,
        reboot_flag-eq (word_of s.sid s.wrapped),
        s.stored_wrapped,
        s.stored_sid,
        reboot_flag-eq state,
      )
      (ground (arith, s.sid_eq, s.wrapped_eq))
