-- ===== src/Server/Runtime/Replies.antt =====
-- What src/server/runtime.rs sends: each reply is a datagram that its receiver can read.
use simple_someip.Prelude.{
  ℕ, ◌+◌, ◌≤◌, ◌≡◌, refl, arith, List, [], ◌∷◌, length, take, Option, Result, ok,
}
use simple_someip.Prelude.Eq.{Eq}
use simple_someip.Maps.{IndexMap}
use simple_someip.Bytes.{IsU16, IsU24}
use simple_someip.Bytes.Facts.{slice-take}
use simple_someip.Bytes.Slice.{SliceWriter}
use simple_someip.Protocol.Header.{max_payload}
use simple_someip.Sd.Flags.{RebootFlag}
use simple_someip.Sd.Entry.{
  Entry, EventGroupEntry, subscribe_ack_event_group, IsEntry, IsEventGroupEntry,
}
use simple_someip.Sd.Options.{Options}
use simple_someip.Sd.Header.Encode.{required_size, IsSdHeader, options_size}
use simple_someip.NetEndpoint.{SocketAddrV4, v4}
use simple_someip.SdCodec.Build.{wrapped_header}
use simple_someip.SdCodec.Built.{Announced, write_sd-Sent}
use simple_someip.Transport.{TransportError}
use simple_someip.Server.Error.{ServerError, capacity}
use simple_someip.Server.SdState.{next_session_id_with_reboot_flag, next_session_id-stored}
use simple_someip.Server.Subscriptions.{GroupKey, Subscriber}
use simple_someip.Server.Runtime.{World, ack_of, sd_datagram, send_datagram, send_sd, sent}

-- The reply to a subscription: it names what the request names, carries the given ttl and no
-- options.
abbrev pub reply_to : EventGroupEntry → ℕ → Entry
reply_to r ttl = subscribe_ack_event_group (record {
  index_first_options_run = 0;
  index_second_options_run = 0;
  options_count = record { first = 0; second = 0 };
  service_id = r.service_id;
  instance_id = r.instance_id;
  major_version = r.major_version;
  ttl = ttl;
  counter = r.counter;
  event_group_id = r.event_group_id;
})

-- The group that a subscription names.
abbrev pub group_named : EventGroupEntry → GroupKey
group_named r = record {
  service_id = r.service_id;
  instance_id = r.instance_id;
  event_group_id = r.event_group_id;
}

module _ (sw : SliceWriter) {Sock : Type 0} (a : Eq SocketAddrV4) (e : Eq GroupKey)
    (groups_cap subscribers_per_group : ℕ)
    (groups : IndexMap GroupKey (List (Subscriber SocketAddrV4)) e groups_cap)
    (send_to : Sock → List ℕ → SocketAddrV4 → Option TransportError × Sock) where
  sd_datagram-Announced :
      (buf : List ℕ) (entries : List Entry) (options : List Options) (session : ℕ)
      → (reboot : RebootFlag) → IsU16 session
      → IsSdHeader (wrapped_header reboot entries options)
      → required_size (wrapped_header reboot entries options) ≤ max_payload
      → 16 + required_size (wrapped_header reboot entries options) ≤ length buf
      → (datagram : List ℕ) × (sd_datagram sw a e groups_cap subscribers_per_group groups send_to
            buf entries options session reboot
          ≡ ok datagram)
        × Announced (wrapped_header reboot entries options) datagram
  unfolding sd_datagram
  sd_datagram-Announced buf entries options session reboot range v small room =
      let h = wrapped_header reboot entries options in
      let n = 16 + required_size h in
      let (out, written, size, reads) =
        write_sd-Sent capacity capacity sw buf entries options session reboot range v small room in
      (take n out, rw (written, slice-take {E = ServerError} out n (omega arith)) refl, reads)

  -- A message to an IPv4 address: what was sent, what a receiver reads of it, and what is left.
  abbrev pub Replied :
      World Sock groups.M
      → List Entry
      → List Options
      → SocketAddrV4
      → Result ServerError (Unit {0}) × World Sock groups.M
      → Type 0
  Replied w entries options target result =
      (datagram : List ℕ) × Announced
        (wrapped_header (next_session_id_with_reboot_flag w.sd_state).1 entries options) datagram
      × (result ≡ (
        sent (send_to w.socket datagram target).0,
        record {
          socket = (send_to w.socket datagram target).1;
          sd_state = (next_session_id_with_reboot_flag w.sd_state).2;
          subscriptions = w.subscriptions;
        },
      ))

  pub send_sd-Replied :
      (w : World Sock groups.M) (buf : List ℕ) (entries : List Entry) (options : List Options)
      → (ip port : ℕ) → ((reboot : RebootFlag) → IsSdHeader (wrapped_header reboot entries options))
      → ((reboot : RebootFlag)
          → required_size (wrapped_header reboot entries options) ≤ max_payload)
      → ((reboot : RebootFlag)
          → 16 + required_size (wrapped_header reboot entries options) ≤ length buf)
      → Replied w entries options
          (record { ip = ip; port = port })
          (send_sd sw a e groups_cap subscribers_per_group groups send_to w buf entries options
            (v4 ip port))
  unfolding send_sd send_datagram
  send_sd-Replied w buf entries options ip port v small room =
      let (session, reboot, word) = next_session_id_with_reboot_flag w.sd_state in
      let high = (next_session_id-stored w.sd_state).1 in
      let (datagram, built, reads) =
        sd_datagram-Announced buf entries options session reboot (omega arith) (v reboot)
          (small reboot) (room reboot) in
      (datagram, reads, rw built refl)

  module _ (r : EventGroupEntry) (ttl : ℕ) (range : IsEventGroupEntry r) (short : IsU24 ttl) where
    reply_to-IsEntry : IsEntry (reply_to r ttl)
    reply_to-IsEntry = record {
      first_index = omega arith;
      second_index = omega arith;
      count = record { first_range = omega arith; second_range = omega arith };
      service = range.service;
      instance_range = range.instance_range;
      major = range.major;
      ttl_range = short;
      counter_range = range.counter_range;
      group = range.group;
    }

    -- An acknowledgement or a refusal.
    pub ack-Replied :
        (w : World Sock groups.M) (buf : List ℕ) (ip port : ℕ)
        → 44 ≤ length buf
        → Replied w
            (reply_to r ttl ∷ [])
            []
            (record { ip = ip; port = port })
            (send_sd sw a e groups_cap subscribers_per_group groups send_to w buf
              (ack_of r ttl ∷ [])
              []
              (v4 ip port))
    unfolding ack_of required_size options_size
    ack-Replied w buf ip port room =
        send_sd-Replied w buf (reply_to r ttl ∷ []) [] ip port
          (λ reboot. record {
            entries_range = (reply_to-IsEntry, tt);
            options_range = tt;
            entries_fit = omega arith;
            options_fit = omega arith;
          })
          (λ reboot. omega arith) (λ reboot. omega (arith, room))
