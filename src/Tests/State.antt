-- ===== src/Tests/State.antt =====
-- Runs of the session counter, the session tracker and the subscriptions.
use simple_someip.Prelude.{
  ℕ, ◌<◌, ◌≡◌, ◌↔◌, ◌⊎◌, refl, arith, false, true, List, [], ◌∷◌, if◌then◌else◌, replicate, some,
}
use simple_someip.Prelude.Eq.{nat_eq}
use simple_someip.Sd.Flags.{recently_rebooted, continuous}
use simple_someip.Server.SdState.{next_session_id_with_reboot_flag}
use simple_someip.Client.Session.{
  SessionKey, SessionState, SessionTracker, multicast, okay, initial, reboot, session_cap,
  verdict_of,
}
use simple_someip.Client.Reboot.{follow, follow-unseen, restart-reboot_iff}
use simple_someip.Server.Subscriptions.{
  GroupKey, Subscriber, subscribe, subscribe_to, unsubscribe, get_subscribers, added, any_address,
  retain_others, new_subscriber, subscribe-accepted, unsubscribe-subscribers,
}
use simple_someip.Tests.Maps.{list_map, group_eq, session_eq, lookup}

abbrev sender : SessionKey ℕ
sender = record { sender = 0xc0a80001; transport = multicast; service_id = 0x1234; instance_id = 1 }

abbrev no_tracker :
    SessionTracker ℕ session_eq (list_map (SessionKey ℕ) SessionState session_eq session_cap)
no_tracker = record { state = []; saturation_warned = false }

follow-unseen_example :
    follow ℕ session_eq
      (list_map (SessionKey ℕ) SessionState session_eq session_cap)
      4
      65534
      no_tracker
      sender
    ≡ initial ∷ replicate 3 okay
unfolding lookup
follow-unseen_example =
    follow-unseen ℕ session_eq (list_map (SessionKey ℕ) SessionState session_eq session_cap) 3 65534
      no_tracker sender refl (omega arith)

abbrev late : SessionState
late = record { last_session_id = 700; last_reboot_flag = recently_rebooted }

restart-reboot_iff_example :
    (verdict_of
        (some late)
        (next_session_id_with_reboot_flag 1).0
        (next_session_id_with_reboot_flag 1).1
      ≡ reboot)
    ↔ ((late.last_reboot_flag ≡ continuous) ⊎ (2 < late.last_session_id))
restart-reboot_iff_example = restart-reboot_iff late

abbrev group : GroupKey
group = record { service_id = 0x5b; instance_id = 1; event_group_id = 1 }

abbrev other_group : GroupKey
other_group = record { service_id = 0x5b; instance_id = 1; event_group_id = 2 }

-- One group of one subscriber.
abbrev filled : List (GroupKey × List (Subscriber ℕ))
filled = (group, new_subscriber 7 group ∷ []) ∷ []

subscribe-accepted_example :
    get_subscribers nat_eq group_eq 2 2
      (list_map GroupKey (List (Subscriber ℕ)) group_eq 2)
      (subscribe nat_eq group_eq 2 2
        (list_map GroupKey (List (Subscriber ℕ)) group_eq 2)
        filled
        group
        8).1
      group
    ≡ (if true
        then added nat_eq group_eq 2 2
            (list_map GroupKey (List (Subscriber ℕ)) group_eq 2)
            (get_subscribers nat_eq group_eq 2 2
              (list_map GroupKey (List (Subscriber ℕ)) group_eq 2)
              filled
              group)
            group
            8
        else get_subscribers nat_eq group_eq 2 2
            (list_map GroupKey (List (Subscriber ℕ)) group_eq 2)
            filled
            group)
unfolding subscribe subscribe_to lookup any_address
subscribe-accepted_example =
    subscribe-accepted nat_eq group_eq 2 2 (list_map GroupKey (List (Subscriber ℕ)) group_eq 2)
      filled group 8 group refl

unsubscribe-subscribers_example :
    (get_subscribers nat_eq group_eq 2 2
        (list_map GroupKey (List (Subscriber ℕ)) group_eq 2)
        (unsubscribe nat_eq group_eq 2 2
          (list_map GroupKey (List (Subscriber ℕ)) group_eq 2)
          filled
          group
          7)
        other_group
      ≡ (if false
          then retain_others nat_eq
              (get_subscribers nat_eq group_eq 2 2
                (list_map GroupKey (List (Subscriber ℕ)) group_eq 2)
                filled
                group)
              7
          else get_subscribers nat_eq group_eq 2 2
              (list_map GroupKey (List (Subscriber ℕ)) group_eq 2)
              filled
              other_group))
    × (any_address nat_eq
          (get_subscribers nat_eq group_eq 2 2
            (list_map GroupKey (List (Subscriber ℕ)) group_eq 2)
            (unsubscribe nat_eq group_eq 2 2
              (list_map GroupKey (List (Subscriber ℕ)) group_eq 2)
              filled
              group
              7)
            group)
          7
        ≡ false)
unsubscribe-subscribers_example =
    unsubscribe-subscribers nat_eq group_eq 2 2 (list_map GroupKey (List (Subscriber ℕ)) group_eq 2)
      filled group 7 other_group
