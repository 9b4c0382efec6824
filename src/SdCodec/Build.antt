-- ===== src/SdCodec/Build.antt =====
-- The builders of src/sd_codec.rs. Each returns the length of the datagram and the buffer as it
-- then stands. `OptionsCount::new` and the `Header` constructors are infallible in the source: an
-- assertion that fails in them is a panic here.
use simple_someip.Prelude.{
  ℕ, suc, zero, ◌+◌, ◌%◌, Bool, true, false, List, [], ◌∷◌, ◌++◌, length, ltb, if◌then◌else◌,
  Result, ok, ◌>>=◌, ◌>>◌, map_err, fail_if, expect,
}
use simple_someip.Bytes.{slice, slice_from}
use simple_someip.Bytes.Slice.{SliceWriter, encode_to_slice}
use simple_someip.Protocol.Error.{Error}
use simple_someip.Protocol.MessageId.{new_from_service_and_method}
use simple_someip.Protocol.MessageType.{response, new as new_type}
use simple_someip.Protocol.ReturnCode.{okay}
use simple_someip.Protocol.Header as Header
use simple_someip.Protocol.Header.Encode as HeaderEncode
use simple_someip.Sd.Flags.{RebootFlag, continuous, new_sd}
use simple_someip.Sd.Entry.Count.{OptionsCount, count_new}
use simple_someip.Sd.Entry.{
  Entry, ServiceEntry, offer_service_entry, stop_offer_service_entry, subscribe_event_group,
  subscribe_ack_event_group,
}
use simple_someip.Sd.Options.{Options, endpoint_v4, udp}
use simple_someip.Sd.Header as SdHeader
use simple_someip.Sd.Header.Encode as SdEncode
use simple_someip.SdCodec.{
  SubscribeEventgroupRequest, OfferServiceRequest, SubscribeAckRequest, BuildError,
  buffer_too_small, encode_failed,
}

-- `map_err(|_| BuildError::EncodeFailed)`.
abbrev pub or_encode_failed {ℓ} : {A : Type ℓ} → Result Error A → Result BuildError A
or_encode_failed r = map_err (λ e. encode_failed) r

abbrev pub wrapped_header : RebootFlag → List Entry → List Options → SdHeader.Header
wrapped_header reboot entries options = record {
  flags = new_sd reboot;
  entries = entries;
  options = options;
}

-- The service entry whose options run of one option starts at the given index. The builder of one
-- entry and the loop of the builder of many have these lines each.
unfoldable pub service_at : OfferServiceRequest → ℕ → OptionsCount → Bool → Entry
service_at r i count stop =
    let svc : ServiceEntry = record {
      index_first_options_run = i;
      index_second_options_run = 0;
      options_count = count;
      service_id = r.service_id;
      instance_id = r.instance_id;
      major_version = r.major_version;
      ttl = (if stop then 0 else r.ttl);
      minor_version = r.minor_version;
    } in
    if stop then stop_offer_service_entry svc else offer_service_entry svc

abbrev pub unicast_option : OfferServiceRequest → Options
unicast_option r = endpoint_v4 r.local_ip udp r.unicast_port

-- The loop over the first `n` requests, from index `i` on. The two vectors have room for `n`
-- elements, so that no push fails; `i as u8` drops what leaves the byte.
unfoldable pub offers_from :
    ℕ → ℕ → List OfferServiceRequest → Bool → Result BuildError (List Entry × List Options)
offers_from n i [] stop = ok ([], [])
offers_from zero i (r ∷ rs) stop = ok ([], [])
offers_from (suc n) i (r ∷ rs) stop = do
  count ← expect (count_new 1 0)
  (entries, options) ← offers_from n (suc i) rs stop
  ok (service_at r (i % 256) count stop ∷ entries, unicast_option r ∷ options)

module _ (sw : SliceWriter) where
  open sw use {wr}

  -- The body of `encode_sd_datagram`, for the error of a short buffer and the one of an encoder:
  -- src/server/runtime.rs and src/server/sd_state.rs have the same lines with errors of their own.
  unfoldable pub write_sd {ℓ} :
      {E : Type ℓ}
      → E
      → E
      → List ℕ
      → List Entry
      → List Options
      → ℕ
      → RebootFlag
      → Result E (ℕ × List ℕ)
  write_sd small failed buf entries options session reboot = do
    fail_if (ltb (length buf) 16) small
    let sd_payload = wrapped_header reboot entries options
    back ← slice_from buf 16
    (n, body) ← map_err (λ e. failed) (encode_to_slice sw (SdEncode.encode wr sd_payload) back)
    header ← expect (Header.new_sd session n)
    front ← slice buf 0 16
    (k, head) ← map_err (λ e. failed) (encode_to_slice sw (HeaderEncode.encode wr header) front)
    ok (16 + n, head ++ body)

  unfoldable pub encode_sd_datagram :
      List ℕ → List Entry → List Options → ℕ → RebootFlag → Result BuildError (ℕ × List ℕ)
  encode_sd_datagram buf entries options session reboot =
      write_sd buffer_too_small encode_failed buf entries options session reboot

  unfoldable pub build_subscribe_eventgroup_datagram :
      List ℕ → SubscribeEventgroupRequest → ℕ → RebootFlag → Result BuildError (ℕ × List ℕ)
  build_subscribe_eventgroup_datagram buf request session reboot = do
    count ← expect (count_new 1 0)
    let entry = subscribe_event_group (record {
      index_first_options_run = 0;
      index_second_options_run = 0;
      options_count = count;
      service_id = request.service_id;
      instance_id = request.instance_id;
      major_version = request.major_version;
      ttl = request.ttl;
      counter = 0;
      event_group_id = request.event_group_id;
    })
    let option = endpoint_v4 request.local_ip udp request.local_rx_port
    encode_sd_datagram buf (entry ∷ []) (option ∷ []) session reboot

  unfoldable pub encode_service_entry_datagram :
      List ℕ → OfferServiceRequest → ℕ → Bool → Result BuildError (ℕ × List ℕ)
  encode_service_entry_datagram buf request session stop = do
    count ← expect (count_new 1 0)
    let entry = service_at request 0 count stop
    encode_sd_datagram buf (entry ∷ []) (unicast_option request ∷ []) session continuous

  unfoldable pub build_offer_service_datagram :
      List ℕ → OfferServiceRequest → ℕ → Result BuildError (ℕ × List ℕ)
  build_offer_service_datagram buf request session =
      encode_service_entry_datagram buf request session false

  unfoldable pub build_stop_offer_service_datagram :
      List ℕ → OfferServiceRequest → ℕ → Result BuildError (ℕ × List ℕ)
  build_stop_offer_service_datagram buf request session =
      encode_service_entry_datagram buf request session true

  unfoldable pub build_multi_service_entry_datagram :
      ℕ → List ℕ → List OfferServiceRequest → ℕ → Bool → Result BuildError (ℕ × List ℕ)
  build_multi_service_entry_datagram n buf requests session stop = do
    (entries, options) ← offers_from n 0 requests stop
    encode_sd_datagram buf entries options session continuous

  unfoldable pub build_multi_offer_service_datagram :
      ℕ → List ℕ → List OfferServiceRequest → ℕ → Result BuildError (ℕ × List ℕ)
  build_multi_offer_service_datagram n buf requests session =
      build_multi_service_entry_datagram n buf requests session false

  unfoldable pub build_multi_stop_offer_service_datagram :
      ℕ → List ℕ → List OfferServiceRequest → ℕ → Result BuildError (ℕ × List ℕ)
  build_multi_stop_offer_service_datagram n buf requests session =
      build_multi_service_entry_datagram n buf requests session true

  unfoldable pub build_subscribe_ack_datagram :
      List ℕ → SubscribeAckRequest → ℕ → Result BuildError (ℕ × List ℕ)
  build_subscribe_ack_datagram buf request session = do
    count ← expect (count_new 0 0)
    let entry = subscribe_ack_event_group (record {
      index_first_options_run = 0;
      index_second_options_run = 0;
      options_count = count;
      service_id = request.service_id;
      instance_id = request.instance_id;
      major_version = request.major_version;
      ttl = request.ttl;
      counter = 0;
      event_group_id = request.event_group_id;
    })
    encode_sd_datagram buf (entry ∷ []) [] session continuous

  unfoldable pub encode_response_header :
      List ℕ → ℕ → ℕ → ℕ → ℕ → ℕ → ℕ → Result BuildError (List ℕ)
  encode_response_header buf service_id method_id request_id protocol_version interface_version
        payload_len =
      do
        fail_if (ltb (length buf) 16) buffer_too_small
        header ← expect (
            Header.new (new_from_service_and_method service_id method_id) request_id
              protocol_version interface_version (new_type response false) okay payload_len)
        front ← slice buf 0 16
        back ← slice_from buf 16
        (k, head) ← or_encode_failed (encode_to_slice sw (HeaderEncode.encode wr header) front)
        ok (head ++ back)
