-- ===== src/Client/Reboot.antt =====
-- The session ids and reboot flags of a server (src/server/sd_state.rs) as the tracker of a client
-- (src/client/session.rs) judges them.
use simple_someip.Prelude.{
  ℕ, zero, suc, ◌+◌, ◌<◌, ◌≡◌, ◌↔◌, ◌⊎◌, refl, ap₂, ◌∙◌, arith, true, ◌||◌, ltb, ◌==◌,
  if◌then◌else◌, none, some, is_some, List, [], ◌∷◌, replicate, lt→ltb,
}
use simple_someip.Prelude.Eq.{Eq, beq_refl}
use simple_someip.Maps.{IndexMap}
use simple_someip.Sd.Flags.{RebootFlag, recently_rebooted, continuous}
use simple_someip.Server.SdState.{
  next_session_id_with_reboot_flag, successor, next_session_id-stored, reboot_flag, sid_of,
}
use simple_someip.Client.Session.{
  SessionKey, SessionState, SessionVerdict, okay, reboot, initial, verdict_of, session_cap,
  SessionTracker, check,
}

-- What a tracker has stored when it has seen the message that left the server in this state.
abbrev pub seen : ℕ → SessionState
seen state = record { last_session_id = sid_of state; last_reboot_flag = reboot_flag state }

verdict_of-seen :
    (state : ℕ)
    → verdict_of
        (some (seen state))
        (next_session_id_with_reboot_flag state).0
        (next_session_id_with_reboot_flag state).1
      ≡ okay
unfolding verdict_of
verdict_of-seen state =
    let (low, high, sid, stored, same, flag) = next_session_id-stored state in
    rw (flag, sid) (go (reboot_flag state))
  where
    go :
        (f : RebootFlag)
        → verdict_of
            (some (record { last_session_id = sid_of state; last_reboot_flag = f }))
            (if sid_of state == 65535 then 1 else sid_of state + 1)
            (if sid_of state == 65535 then continuous else f)
          ≡ okay
    go recently_rebooted = unfold verdict_of in ground arith
    go continuous = unfold verdict_of in ground arith

judged :
    (n : ℕ) (f : RebootFlag)
    → (verdict_of (some (record { last_session_id = n; last_reboot_flag = f })) 2 recently_rebooted
        ≡ reboot)
      ↔ ((f ≡ continuous) ⊎ (2 < n))
unfolding verdict_of
judged n recently_rebooted = ground arith
judged n continuous = ground arith

-- A server that restarts counts from 1 again, so that its first message has the session id 2 and
-- the flag RecentlyRebooted. The tracker reports the reboot exactly when the last message that it
-- has seen was Continuous or had a session id above 2.
pub restart-reboot_iff :
    (last : SessionState)
    → (verdict_of
          (some last)
          (next_session_id_with_reboot_flag 1).0
          (next_session_id_with_reboot_flag 1).1
        ≡ reboot)
      ↔ ((last.last_reboot_flag ≡ continuous) ⊎ (2 < last.last_session_id))
unfolding next_session_id_with_reboot_flag successor
restart-reboot_iff last = judged last.last_session_id last.last_reboot_flag

module _ (Addr : Type 0) (e : Eq (SessionKey Addr))
    (maps : IndexMap (SessionKey Addr) SessionState e session_cap) where
  -- A client checks `n` messages in a row that a server sends, from the server's state on.
  unfoldable pub follow : ℕ → ℕ → SessionTracker Addr e maps → SessionKey Addr → List SessionVerdict
  follow zero state tracker key = []
  follow (suc n) state tracker key =
      let (session_id, flag, next) = next_session_id_with_reboot_flag state in
      let (verdict, tracked) = check Addr e maps tracker key session_id flag in
      verdict ∷ follow n next tracked key

  open maps use {get, insert, len}

  -- A check that finds a slot stores what it has seen under its own key, and leaves others alone.
  check-stored :
      (tracker : SessionTracker Addr e maps) (key : SessionKey Addr) (session_id : ℕ)
      (flag : RebootFlag)
      → is_some (get tracker.state key) || ltb (len tracker.state) session_cap ≡ true
      → get (check Addr e maps tracker key session_id flag).1.state key
        ≡ some (record { last_session_id = session_id; last_reboot_flag = flag })
  unfolding check
  check-stored tracker key session_id flag room =
      let new_state : SessionState = record {
        last_session_id = session_id;
        last_reboot_flag = flag;
      } in
      maps.get-insert tracker.state key new_state key
        (maps.insert-accepts tracker.state key new_state ∙ room)
      ∙ rw (beq_refl e key) refl

  -- The tracker after the next message of the server, whatever it had stored before.
  follow-stored :
      (state : ℕ) (tracker : SessionTracker Addr e maps) (key : SessionKey Addr)
      → is_some (get tracker.state key) || ltb (len tracker.state) session_cap ≡ true
      → get
          (check Addr e maps tracker key
            (next_session_id_with_reboot_flag state).0
            (next_session_id_with_reboot_flag state).1).1.state
          key
        ≡ some (seen (next_session_id_with_reboot_flag state).2)
  follow-stored state tracker key room =
      let (_, _, _, sid, flag, _) = next_session_id-stored state in
      rw (sid, flag) (check-stored tracker key _ _ room)

  check-verdict :
      (tracker : SessionTracker Addr e maps) (key : SessionKey Addr) (session_id : ℕ)
      (flag : RebootFlag)
      → (check Addr e maps tracker key session_id flag).0
        ≡ verdict_of (get tracker.state key) session_id flag
  unfolding check
  check-verdict tracker key session_id flag = refl

  -- A tracker that has seen the message before finds every further message of the server in order:
  -- a running server is never taken for a restarted one, not even where its session id wraps.
  pub follow-seen :
      (n state : ℕ) (tracker : SessionTracker Addr e maps) (key : SessionKey Addr)
      → get tracker.state key ≡ some (seen state)
      → follow n state tracker key ≡ replicate n okay
  unfolding follow
  follow-seen zero state tracker key h = refl
  follow-seen (suc n) state tracker key h =
      let room : is_some (get tracker.state key) || ltb (len tracker.state) session_cap ≡ true =
        rw h refl in
      ap₂ (◌∷◌) (check-verdict tracker key _ _ ∙ rw h (verdict_of-seen state)) (
        follow-seen n (next_session_id_with_reboot_flag state).2 _ key
          (follow-stored state tracker key room))

  -- A tracker that knows nothing of a sender and has a free slot judges the first message of a
  -- server Initial and every later one Ok, whatever state the server is in.
  pub follow-unseen :
      (n state : ℕ) (tracker : SessionTracker Addr e maps) (key : SessionKey Addr)
      → get tracker.state key ≡ none
      → len tracker.state < session_cap
      → follow (suc n) state tracker key ≡ initial ∷ replicate n okay
  unfolding follow
  follow-unseen n state tracker key h free =
      let room : is_some (get tracker.state key) || ltb (len tracker.state) session_cap ≡ true =
        rw (h, lt→ltb (len tracker.state) session_cap free) refl in
      ap₂ (◌∷◌) (check-verdict tracker key _ _ ∙ rw h (unfold verdict_of in refl)) (
        follow-seen n (next_session_id_with_reboot_flag state).2 _ key
          (follow-stored state tracker key room))
