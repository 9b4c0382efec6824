-- ===== src/E2e/Profile.antt =====
-- The dispatch on a profile of src/e2e/mod.rs.
use simple_someip.Prelude.{
  ℕ, ◌≡◌, ◌≢◌, sym, subst, >>=-eq-ok, arith, List, none, some, Result, ok, panic, ◌>>=◌,
}
use simple_someip.Protocol.MessageId.{MessageId, service_id, method_id}
use simple_someip.E2e.{
  Profile4Config, Profile5Config, Profile4State, Profile5State, E2eError, E2eCheckStatus,
  E2eCheckResult, bad_argument, new_profile4_state, new_profile5_state,
}
use simple_someip.E2e.Crc.{Crc, compute_crc16_p5, compute_crc16_p5_with_header}
use simple_someip.E2e.Protect.{
  protect_profile4, protect_profile5, protect_profile5_with_header, protect5-ne-panic,
  protect_profile4-ne-panic,
}
use simple_someip.E2e.Check.{check_profile4, check_profile5, check_profile5_with_header}

pub data E2eProfile : Type 0 where
  profile4 : Profile4Config → E2eProfile
  profile5 : Profile5Config → E2eProfile
  profile5_with_header : Profile5Config → E2eProfile

pub data E2eState : Type 0 where
  profile4_state : Profile4State → E2eState
  profile5_state : Profile5State → E2eState

pub record E2eKey : Type 0 where
  pub service_id : ℕ
  pub method_or_event_id : ℕ

unfoldable pub from_message_id : MessageId → E2eKey
from_message_id m = record { service_id = service_id m; method_or_event_id = method_id m }

unfoldable pub from_profile : E2eProfile → E2eState
from_profile (profile4 config) = profile4_state new_profile4_state
from_profile (profile5 config) = profile5_state new_profile5_state
from_profile (profile5_with_header config) = profile5_state new_profile5_state

-- `result.payload.unwrap_or(payload)`.
abbrev pub stripped : E2eCheckResult → List ℕ → List ℕ
stripped result payload = elim result.payload [ none ↦ payload | some found ↦ found ]

-- The two checksums that the profiles use.
pub record Crcs : Type 1 where
  pub crc32 : Crc 4294967296
  pub crc16 : Crc 65536

unfoldable pub e2e_check :
    Crcs
    → E2eProfile
    → E2eState
    → List ℕ
    → List ℕ
    → Result E2eError ((E2eCheckStatus × List ℕ) × E2eState)
e2e_check crcs (profile4 config) (profile4_state st) payload upper_header = do
  (result, next) ← check_profile4 crcs.crc32 config st payload
  ok ((result.status, stripped result payload), profile4_state next)
e2e_check crcs (profile5 config) (profile5_state st) payload upper_header = do
  (result, next) ← check_profile5 crcs.crc16 config st payload
  ok ((result.status, stripped result payload), profile5_state next)
e2e_check crcs (profile5_with_header config) (profile5_state st) payload upper_header = do
  (result, next) ← check_profile5_with_header crcs.crc16 config st payload upper_header
  ok ((result.status, stripped result payload), profile5_state next)
e2e_check crcs _ state payload upper_header = ok ((bad_argument, payload), state)

-- The last arm is `unreachable!()`.
unfoldable pub e2e_protect :
    Crcs
    → E2eProfile
    → E2eState
    → List ℕ
    → List ℕ
    → List ℕ
    → Result E2eError (ℕ × E2eState × List ℕ)
e2e_protect crcs (profile4 config) (profile4_state st) payload upper_header output = do
  (n, next, written) ← protect_profile4 crcs.crc32 config st payload output
  ok (n, profile4_state next, written)
e2e_protect crcs (profile5 config) (profile5_state st) payload upper_header output = do
  (n, next, written) ← protect_profile5 crcs.crc16 config st payload output
  ok (n, profile5_state next, written)
e2e_protect crcs (profile5_with_header config) (profile5_state st) payload upper_header output = do
  (n, next, written) ← protect_profile5_with_header crcs.crc16 config st payload upper_header output
  ok (n, profile5_state next, written)
e2e_protect crcs _ state payload upper_header output = panic

-- A state of the kind that its profile needs.
abbrev pub IsStateOf : E2eProfile → E2eState → Type 0
IsStateOf (profile4 config) (profile4_state st) = Unit {0}
IsStateOf (profile5 config) (profile5_state st) = Unit {0}
IsStateOf (profile5_with_header config) (profile5_state st) = Unit {0}
IsStateOf _ _ = ⊥

pub from_profile-IsStateOf : (p : E2eProfile) → IsStateOf p (from_profile p)
unfolding from_profile
from_profile-IsStateOf (profile4 config) = tt
from_profile-IsStateOf (profile5 config) = tt
from_profile-IsStateOf (profile5_with_header config) = tt

protect_profile5-ne-panic :
    (crc : Crc 65536) (config : Profile5Config) (state : Profile5State) (payload output : List ℕ)
    → protect_profile5 crc config state payload output ≢ panic
unfolding protect_profile5
protect_profile5-ne-panic crc config state payload output h =
    protect5-ne-panic (λ c. compute_crc16_p5 crc config.data_id c payload) state payload output h

with_header-ne-panic :
    (crc : Crc 65536) (config : Profile5Config) (state : Profile5State)
    → (payload upper_header output : List ℕ)
    → protect_profile5_with_header crc config state payload upper_header output ≢ panic
unfolding protect_profile5_with_header
with_header-ne-panic crc config state payload upper_header output h =
    protect5-ne-panic (λ c. compute_crc16_p5_with_header crc config.data_id c payload upper_header)
      state payload output h

-- With a state of the kind that the profile needs, protecting gives a frame or an error and never
-- reaches the arm that is unreachable.
pub e2e_protect-ne-panic :
    (crcs : Crcs) (p : E2eProfile) (state : E2eState) (payload upper_header output : List ℕ)
    → IsStateOf p state
    → e2e_protect crcs p state payload upper_header output ≢ panic
unfolding e2e_protect
e2e_protect-ne-panic crcs (profile4 config) (profile4_state st) payload upper_header output v h =
    ground (arith, protect_profile4-ne-panic crcs.crc32 config st payload output)
e2e_protect-ne-panic crcs (profile5 config) (profile5_state st) payload upper_header output v h =
    ground (arith, protect_profile5-ne-panic crcs.crc16 config st payload output)
e2e_protect-ne-panic crcs (profile5_with_header config) (profile5_state st) payload upper_header
      output v h =
    ground (arith, with_header-ne-panic crcs.crc16 config st payload upper_header output)
e2e_protect-ne-panic crcs (profile4 config) (profile5_state st) payload upper_header output v h =
    elim v [ ]
e2e_protect-ne-panic crcs (profile5 config) (profile4_state st) payload upper_header output v h =
    elim v [ ]
e2e_protect-ne-panic crcs (profile5_with_header config) (profile4_state st) payload upper_header
      output v h =
    elim v [ ]

-- Protecting keeps the kind of the state.
pub e2e_protect-IsStateOf :
    (crcs : Crcs) (p : E2eProfile) (state next : E2eState)
    (payload upper_header output written : List ℕ) (n : ℕ)
    → IsStateOf p state
    → e2e_protect crcs p state payload upper_header output ≡ ok (n, next, written)
    → IsStateOf p next
unfolding e2e_protect
e2e_protect-IsStateOf crcs (profile4 config) (profile4_state st) next payload upper_header output
      written n v h =
    let (done, _, last) = >>=-eq-ok (protect_profile4 crcs.crc32 config st payload output) _ h in
    let same : next ≡ profile4_state done.1 = ground (arith, last) in
    subst (IsStateOf (profile4 config)) (sym same) tt
e2e_protect-IsStateOf crcs (profile5 config) (profile5_state st) next payload upper_header output
      written n v h =
    let (done, _, last) = >>=-eq-ok (protect_profile5 crcs.crc16 config st payload output) _ h in
    let same : next ≡ profile5_state done.1 = ground (arith, last) in
    subst (IsStateOf (profile5 config)) (sym same) tt
e2e_protect-IsStateOf crcs (profile5_with_header config) (profile5_state st) next payload
      upper_header output written n v h =
    let (done, _, last) =
      >>=-eq-ok (protect_profile5_with_header crcs.crc16 config st payload upper_header output) _
        h in
    let same : next ≡ profile5_state done.1 = ground (arith, last) in
    subst (IsStateOf (profile5_with_header config)) (sym same) tt
e2e_protect-IsStateOf crcs (profile4 config) (profile5_state st) next payload upper_header output
      written n v h =
    elim v [ ]
e2e_protect-IsStateOf crcs (profile5 config) (profile4_state st) next payload upper_header output
      written n v h =
    elim v [ ]
e2e_protect-IsStateOf crcs (profile5_with_header config) (profile4_state st) next payload
      upper_header output written n v h =
    elim v [ ]

-- Checking keeps the kind of the state.
pub e2e_check-IsStateOf :
    (crcs : Crcs) (p : E2eProfile) (state next : E2eState) (payload upper_header : List ℕ)
    → (found : E2eCheckStatus × List ℕ) → IsStateOf p state
    → e2e_check crcs p state payload upper_header ≡ ok (found, next)
    → IsStateOf p next
unfolding e2e_check
e2e_check-IsStateOf crcs (profile4 config) (profile4_state st) next payload upper_header found v h =
    let (done, _, last) = >>=-eq-ok (check_profile4 crcs.crc32 config st payload) _ h in
    let same : next ≡ profile4_state done.1 = ground (arith, last) in
    subst (IsStateOf (profile4 config)) (sym same) tt
e2e_check-IsStateOf crcs (profile5 config) (profile5_state st) next payload upper_header found v h =
    let (done, _, last) = >>=-eq-ok (check_profile5 crcs.crc16 config st payload) _ h in
    let same : next ≡ profile5_state done.1 = ground (arith, last) in
    subst (IsStateOf (profile5 config)) (sym same) tt
e2e_check-IsStateOf crcs (profile5_with_header config) (profile5_state st) next payload upper_header
      found v h =
    let (done, _, last) =
      >>=-eq-ok (check_profile5_with_header crcs.crc16 config st payload upper_header) _ h in
    let same : next ≡ profile5_state done.1 = ground (arith, last) in
    subst (IsStateOf (profile5_with_header config)) (sym same) tt
e2e_check-IsStateOf crcs (profile4 config) (profile5_state st) next payload upper_header found v h =
    elim v [ ]
e2e_check-IsStateOf crcs (profile5 config) (profile4_state st) next payload upper_header found v h =
    elim v [ ]
e2e_check-IsStateOf crcs (profile5_with_header config) (profile4_state st) next payload upper_header
      found v h =
    elim v [ ]
