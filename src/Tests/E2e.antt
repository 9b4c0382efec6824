-- ===== src/Tests/E2e.antt =====
-- Runs of the end-to-end protection, with a checksum that adds up the bytes.
use simple_someip.Prelude.{
  ◌≢◌, panic, ℕ, ◌+◌, ◌*◌, ◌%◌, ◌≡◌, arith, List, [], ◌∷◌, replicate, none, some, ok,
}
use simple_someip.E2e.{Profile4Config, Profile5Config, Profile4State, new_profile4_state}
use simple_someip.E2e.Crc.{Crc}
use simple_someip.E2e.Check.{Cases4, check_profile4-Cases4}
use simple_someip.Prelude.Eq.{nat_eq}
use simple_someip.Maps.{IndexMap}
use simple_someip.E2e.Profile.{Crcs, E2eKey, E2eProfile, E2eState, profile4, profile5}
use simple_someip.E2e.Registry.{
  registry_cap, rx_state_cap, RxKey, E2eRegistry, new, register, protect,
}
use simple_someip.E2e.Registry.Matched.{
  Reach, starts, registers, IsMatched, Reach-IsMatched, protect-ne-panic,
}
use simple_someip.Tests.Maps.{list_map, key_eq, rx_eq}
use simple_someip.E2e.Link.{exchange, delivered, exchange-delivered}

unfoldable pub feed : ℕ → List ℕ → ℕ
feed d [] = d
feed d (b ∷ bs) = feed (d * 31 + b) bs

abbrev pub sum32 : Crc 4294967296
sum32 = record {
  Digest = ℕ;
  digest = 0;
  update = feed;
  finalize = λ d. d % 4294967296;
  finalize-lt = λ d. omega arith;
}

abbrev pub sum16 : Crc 65536
sum16 = record {
  Digest = ℕ;
  digest = 0;
  update = feed;
  finalize = λ d. d % 65536;
  finalize-lt = λ d. omega arith;
}

abbrev pub config4 : Profile4Config
config4 = record { data_id = 0x12345678; max_delta_counter = 15 }

abbrev pub config5 : Profile5Config
config5 = record { data_id = 0x1234; data_length = 3; max_delta_counter = 15 }

-- A sender whose counter wraps after the first frame.
abbrev wrapping_sender : Profile4State
wrapping_sender = record { protect_counter = 65535; last_counter = none }

exchange-delivered_example :
    exchange sum32 config4 wrapping_sender new_profile4_state
      (replicate 32 0)
      ((1 ∷ 2 ∷ []) ∷ (3 ∷ []) ∷ [])
    ≡ ok (delivered 65535 ((1 ∷ 2 ∷ []) ∷ (3 ∷ []) ∷ []))
exchange-delivered_example =
    exchange-delivered sum32 config4 wrapping_sender new_profile4_state (replicate 32 0)
      ((1 ∷ 2 ∷ []) ∷ (3 ∷ []) ∷ []) (omega arith) (omega arith) tt
      ((omega arith, omega arith), ((omega arith, omega arith), tt))

check_profile4-Cases4_example : Cases4 sum32 config4 new_profile4_state (replicate 14 7)
check_profile4-Cases4_example =
    check_profile4-Cases4 sum32 config4 new_profile4_state (replicate 14 7)

abbrev pub crcs : Crcs
crcs = record { crc32 = sum32; crc16 = sum16 }

abbrev event_key : E2eKey
event_key = record { service_id = 0x1234; method_or_event_id = 0x8001 }

abbrev pub profiles : IndexMap E2eKey E2eProfile key_eq registry_cap
profiles = list_map E2eKey E2eProfile key_eq registry_cap

abbrev pub senders : IndexMap E2eKey E2eState key_eq registry_cap
senders = list_map E2eKey E2eState key_eq registry_cap

abbrev pub receivers : IndexMap (RxKey ℕ) E2eState rx_eq rx_state_cap
receivers = list_map (RxKey ℕ) E2eState rx_eq rx_state_cap

-- A key that was first registered for Profile 4 and then for Profile 5.
abbrev reregistered : E2eRegistry nat_eq key_eq rx_eq profiles senders receivers
reregistered =
    (register nat_eq key_eq rx_eq profiles senders receivers
      (register nat_eq key_eq rx_eq profiles senders receivers
        (new nat_eq key_eq rx_eq profiles senders receivers) event_key (profile4 config4)).1
      event_key (profile5 config5)).1

reregistered_reached : Reach nat_eq key_eq rx_eq profiles senders receivers reregistered
reregistered_reached =
    registers event_key (profile5 config5) (registers event_key (profile4 config4) starts)

protect-ne-panic_example :
    protect nat_eq key_eq rx_eq profiles senders receivers crcs reregistered event_key
      (1 ∷ 2 ∷ 3 ∷ [])
      (replicate 8 9)
      (replicate 16 0)
    ≢ some panic
protect-ne-panic_example =
    protect-ne-panic nat_eq key_eq rx_eq profiles senders receivers reregistered crcs event_key
      (1 ∷ 2 ∷ 3 ∷ []) (replicate 8 9) (replicate 16 0) reregistered_reached

Reach-IsMatched_example : IsMatched nat_eq key_eq rx_eq profiles senders receivers reregistered
Reach-IsMatched_example =
    Reach-IsMatched nat_eq key_eq rx_eq profiles senders receivers reregistered reregistered_reached
