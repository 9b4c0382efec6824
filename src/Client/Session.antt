-- ===== src/Client/Session.antt =====
-- `SessionTracker` of src/client/session.rs: reboot detection for each sender, transport, service
-- and instance. Logging is left out, but for the flag that silences it.
use simple_someip.Prelude.{
  ℕ, Bool, true, false, not, ◌&&◌, ◌||◌, ltb, leb, ◌==◌, if◌then◌else◌, Option, none, some,
}
use simple_someip.Prelude.Eq.{Eq}
use simple_someip.Maps.{IndexMap}
use simple_someip.Sd.Flags.{RebootFlag, recently_rebooted, continuous}

pub data TransportKind : Type 0 where
  multicast unicast : TransportKind

pub record SessionKey (Addr : Type 0) : Type 0 where
  pub sender : Addr
  pub transport : TransportKind
  pub service_id : ℕ
  pub instance_id : ℕ

pub record SessionState : Type 0 where
  pub last_session_id : ℕ
  pub last_reboot_flag : RebootFlag

pub data SessionVerdict : Type 0 where
  okay reboot initial : SessionVerdict

abbrev pub session_cap : ℕ
session_cap = 64

abbrev pub is_rebooted : RebootFlag → Bool
is_rebooted recently_rebooted = true
is_rebooted continuous = false

-- The match on the stored state.
unfoldable pub verdict_of : Option SessionState → ℕ → RebootFlag → SessionVerdict
verdict_of none session_id flag = initial
verdict_of (some prev) session_id flag =
    if not (is_rebooted prev.last_reboot_flag) && is_rebooted flag
    then reboot
    else if is_rebooted prev.last_reboot_flag
        && (is_rebooted flag
            && (ltb session_id prev.last_session_id
                && not (prev.last_session_id == 65535 && leb session_id 1)))
    then reboot
    else okay

module _ (Addr : Type 0) (e : Eq (SessionKey Addr))
    (maps : IndexMap (SessionKey Addr) SessionState e session_cap) where
  pub record SessionTracker : Type 0 where
    pub state : maps.M
    pub saturation_warned : Bool

  unfoldable pub check :
      SessionTracker → SessionKey Addr → ℕ → RebootFlag → SessionVerdict × SessionTracker
  check tracker key session_id flag =
      let verdict = verdict_of (maps.get tracker.state key) session_id flag in
      let new_state : SessionState = record {
        last_session_id = session_id;
        last_reboot_flag = flag;
      } in
      let (state, accepted) = maps.insert tracker.state key new_state in
      (
        verdict,
        record { state = state; saturation_warned = tracker.saturation_warned || not accepted },
      )
