-- ===== src/E2e/Registry.antt =====
-- src/e2e/registry.rs: the profile of each key, the sender's state of each key, and the receiver's
-- state of each source and key. The maps are those of the crate heapless; logging is left out.
pub mod Matched
use simple_someip.Prelude.{
  ℕ, ◌≡◌, ◌≢◌, refl, sym, ap, subst, ◌∙◌, arith, Bool, true, false, not, Bool-cases, inl, inr,
  Option, none, some, is_some, if◌then◌else◌, List, Result, Result-cases, >>=-eq-ok, ok, err, panic,
  ◌>>=◌,
}
use simple_someip.Prelude.Eq.{Eq, beq_refl}
use simple_someip.Maps.{IndexMap}
use simple_someip.E2e.{E2eError, E2eCheckStatus}
use simple_someip.E2e.Profile.{
  E2eProfile, E2eState, E2eKey, Crcs, from_profile, e2e_check, e2e_protect, IsStateOf,
  from_profile-IsStateOf, e2e_protect-ne-panic, e2e_protect-IsStateOf, e2e_check-IsStateOf,
}

abbrev pub registry_cap : ℕ
registry_cap = 32

abbrev pub rx_state_cap : ℕ
rx_state_cap = 64

pub record RxKey (Ip : Type 0) : Type 0 where
  pub source : Ip
  pub key : E2eKey

-- `E2ERegistryFull(E2E_REGISTRY_CAP)`.
pub data RegistryFull : Type 0 where
  registry_full : ℕ → RegistryFull

module _ {Ip : Type 0} (ip : Eq Ip) (ke : Eq E2eKey) (re : Eq (RxKey Ip))
    (profiles : IndexMap E2eKey E2eProfile ke registry_cap)
    (senders : IndexMap E2eKey E2eState ke registry_cap)
    (receivers : IndexMap (RxKey Ip) E2eState re rx_state_cap) where
  pub record E2eRegistry : Type 0 where
    pub configs : profiles.M
    pub rx_states : receivers.M
    pub tx_states : senders.M
    pub rx_saturation_warned : Bool

  abbrev pub new : E2eRegistry
  new = record {
    configs = profiles.empty;
    rx_states = receivers.empty;
    tx_states = senders.empty;
    rx_saturation_warned = false;
  }

  -- The states of a key are dropped for every source.
  abbrev pub without_key : receivers.M → E2eKey → receivers.M
  without_key rx key = receivers.retain rx (λ r. not (ke.beq r.key key))

  unfoldable pub register :
      E2eRegistry → E2eKey → E2eProfile → Result RegistryFull (Unit {0}) × E2eRegistry
  register reg key profile =
      let (configs, accepted) = profiles.insert reg.configs key profile in
      if not accepted
      then (err (registry_full registry_cap), record reg { configs = configs })
      else (
        ok tt,
        record reg {
          configs = configs;
          tx_states = (senders.insert reg.tx_states key (from_profile profile)).0;
          rx_states = without_key reg.rx_states key;
        },
      )

  unfoldable pub unregister : E2eRegistry → E2eKey → E2eRegistry
  unregister reg key = record reg {
    configs = profiles.remove reg.configs key;
    tx_states = senders.remove reg.tx_states key;
    rx_states = without_key reg.rx_states key;
  }

  unfoldable pub contains_key : E2eRegistry → E2eKey → Bool
  contains_key reg key = is_some (profiles.get reg.configs key)

  unfoldable pub reset_source : E2eRegistry → Ip → E2eRegistry
  reset_source reg source = record reg {
    rx_states = receivers.retain reg.rx_states (λ r. not (ip.beq r.source source));
  }

  unfoldable pub protect_as :
      Option E2eProfile
      → Option E2eState
      → Crcs
      → E2eRegistry
      → E2eKey
      → List ℕ
      → List ℕ
      → List ℕ
      → Option (Result E2eError (ℕ × E2eRegistry × List ℕ))
  protect_as none found crcs reg key payload upper_header output = none
  protect_as (some profile) none crcs reg key payload upper_header output = none
  protect_as (some profile) (some state) crcs reg key payload upper_header output = some (do
    (n, next, written) ← e2e_protect crcs profile state payload upper_header output
    ok (n, record reg { tx_states = senders.write reg.tx_states key next }, written))

  -- The outer option is `None` for a key with no profile or no state; on an error nothing changes.
  unfoldable pub protect :
      Crcs
      → E2eRegistry
      → E2eKey
      → List ℕ
      → List ℕ
      → List ℕ
      → Option (Result E2eError (ℕ × E2eRegistry × List ℕ))
  protect crcs reg key payload upper_header output =
      protect_as (profiles.get reg.configs key) (senders.get reg.tx_states key) crcs reg key payload
        upper_header output

  unfoldable pub check_as :
      Option E2eProfile
      → Option E2eState
      → Crcs
      → E2eRegistry
      → RxKey Ip
      → List ℕ
      → List ℕ
      → Result E2eError (Option (E2eCheckStatus × List ℕ) × E2eRegistry)
  check_as none old crcs reg r payload upper_header = ok (none, reg)
  check_as (some profile) (some state) crcs reg r payload upper_header = do
    (found, next) ← e2e_check crcs profile state payload upper_header
    ok (some found, record reg { rx_states = receivers.write reg.rx_states r next })
  check_as (some profile) none crcs reg r payload upper_header = do
    let (rx, accepted) = receivers.insert reg.rx_states r (from_profile profile)
    (found, next) ← e2e_check crcs profile (from_profile profile) payload upper_header
    ok (
      some found,
      (if accepted
          then record reg { rx_states = receivers.write rx r next }
          else record reg { rx_states = rx; rx_saturation_warned = true }),
    )

  -- A receiver's state is taken or made, and written back after the check; when no slot is free a
  -- transient one is used and the warning is remembered.
  unfoldable pub check :
      Crcs
      → E2eRegistry
      → Ip
      → E2eKey
      → List ℕ
      → List ℕ
      → Result E2eError (Option (E2eCheckStatus × List ℕ) × E2eRegistry)
  check crcs reg source key payload upper_header =
      let r : RxKey Ip = record { source = source; key = key } in
      check_as (profiles.get reg.configs key) (receivers.get reg.rx_states r) crcs reg r payload
        upper_header
