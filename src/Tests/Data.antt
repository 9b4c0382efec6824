-- ===== src/Tests/Data.antt =====
-- Test data: a writer that collects what is written, a service discovery header and a message.
use simple_someip.Prelude.{
  ℕ, sym, ap, refl, arith, false, List, [], ◌∷◌, ◌++◌, append-nil, append_assoc, ok,
}
use simple_someip.Bytes.{IsBytes, to_be16, to_be24, to_be32}
use simple_someip.Sd.Entry.Count.{count_to_u8}
use simple_someip.Sd.Entry.Encode.{entry_bytes, service_bytes}
use simple_someip.Bytes.Writer.{Writer}
use simple_someip.Protocol.Header.Encode.{header_bytes}
use simple_someip.Protocol.MessageType.{field_try_from, type_try_from}
use simple_someip.Protocol.ReturnCode.{okay, as_u8}
use simple_someip.Protocol.Header as Header
use simple_someip.Protocol.Header.{IsHeader}
use simple_someip.Sd.Entry.{
  type_to_u8, Entry, ServiceEntry, offer_service_entry, subscribe_event_group, IsEntry,
}
use simple_someip.Sd.Options.{Options, endpoint_v4, configuration_string, udp}
use simple_someip.Sd.Options.Encode.{size}
use simple_someip.Sd.Header as SdHeader
use simple_someip.Sd.Header.Encode.{IsSdHeader, options_size}

abbrev pub log_writer : Writer
log_writer = record {
  W = List ℕ;
  write_all = λ w bs. ok (w ++ bs);
  write_all-nil = λ w. ap ok (append-nil w);
  write_all-append = λ w xs ys. ap ok (sym (append_assoc w xs ys));
}

abbrev pub offered : ServiceEntry
offered = record {
  index_first_options_run = 0;
  index_second_options_run = 0;
  options_count = record { first = 1; second = 0 };
  service_id = 0x1234;
  instance_id = 0x0001;
  major_version = 1;
  ttl = 3;
  minor_version = 0x10;
}

abbrev pub offer : Entry
offer = offer_service_entry offered

abbrev pub subscription : Entry
subscription = subscribe_event_group (record {
  index_first_options_run = 0;
  index_second_options_run = 0;
  options_count = record { first = 1; second = 0 };
  service_id = 0x1234;
  instance_id = 0x0001;
  major_version = 1;
  ttl = 0xffffff;
  counter = 0;
  event_group_id = 0x0007;
})

pub offer-IsEntry : IsEntry offer
offer-IsEntry = record {
  first_index = omega arith;
  second_index = omega arith;
  count = record { first_range = omega arith; second_range = omega arith };
  service = omega arith;
  instance_range = omega arith;
  major = omega arith;
  ttl_range = omega arith;
  minor = omega arith;
}

pub subscription-IsEntry : IsEntry subscription
subscription-IsEntry = record {
  first_index = omega arith;
  second_index = omega arith;
  count = record { first_range = omega arith; second_range = omega arith };
  service = omega arith;
  instance_range = omega arith;
  major = omega arith;
  ttl_range = omega arith;
  counter_range = omega arith;
  group = omega arith;
}

abbrev pub endpoint : Options
endpoint = endpoint_v4 0xc0a80001 udp 30490

abbrev pub config : Options
config = configuration_string (3 ∷ 97 ∷ 61 ∷ 98 ∷ 0 ∷ [])

abbrev pub sd_header : SdHeader.Header
sd_header = record {
  flags = record { reboot = false; unicast = false };
  entries = offer ∷ subscription ∷ [];
  options = endpoint ∷ config ∷ [];
}

pub sd_header-IsSdHeader : IsSdHeader sd_header
unfolding options_size size
sd_header-IsSdHeader = record {
  entries_range = (offer-IsEntry, (subscription-IsEntry, tt));
  options_range = ((omega arith, omega arith), (omega arith, tt));
  entries_fit = omega arith;
  options_fit = omega arith;
}

-- A request with a payload of three bytes.
abbrev pub request_header : Header.Header
request_header = record {
  message_id = record { raw = 0x12340001 };
  length_field = 11;
  request_id = 0x00010002;
  protocol_version = 0x01;
  interface_version = 0x02;
  message_type = record { byte = 0x00 };
  return_code = okay;
}

pub request_header-IsHeader : IsHeader request_header
request_header-IsHeader = record {
  id_range = omega arith;
  length_range = omega arith;
  request_range = omega arith;
  version = refl;
  interface_range = omega arith;
  type_valid = unfold field_try_from type_try_from in refl;
  type_range = omega arith;
  code_valid = tt;
}

pub request_wire-IsBytes : IsBytes (header_bytes request_header ++ (7 ∷ 8 ∷ 9 ∷ []))
unfolding header_bytes to_be32 as_u8
request_wire-IsBytes = (
  omega arith,
  (
    omega arith,
    (
      omega arith,
      (
        omega arith,
        (
          omega arith,
          (
            omega arith,
            (
              omega arith,
              (
                omega arith,
                (
                  omega arith,
                  (
                    omega arith,
                    (
                      omega arith,
                      (
                        omega arith,
                        (
                          omega arith,
                          (
                            omega arith,
                            (
                              omega arith,
                              (omega arith, (omega arith, (omega arith, (omega arith, tt)))),
                            ),
                          ),
                        ),
                      ),
                    ),
                  ),
                ),
              ),
            ),
          ),
        ),
      ),
    ),
  ),
)

-- A header whose length field is 7.
abbrev pub short_header : Header.Header
short_header = record request_header { length_field = 7 }

pub short_header-IsHeader : IsHeader short_header
short_header-IsHeader = record {
  id_range = omega arith;
  length_range = omega arith;
  request_range = omega arith;
  version = refl;
  interface_range = omega arith;
  type_valid = unfold field_try_from type_try_from in refl;
  type_range = omega arith;
  code_valid = tt;
}

pub short_wire-IsBytes : IsBytes (header_bytes short_header ++ [])
unfolding header_bytes to_be32 as_u8
short_wire-IsBytes = (
  omega arith,
  (
    omega arith,
    (
      omega arith,
      (
        omega arith,
        (
          omega arith,
          (
            omega arith,
            (
              omega arith,
              (
                omega arith,
                (
                  omega arith,
                  (
                    omega arith,
                    (
                      omega arith,
                      (omega arith, (omega arith, (omega arith, (omega arith, (omega arith, tt))))),
                    ),
                  ),
                ),
              ),
            ),
          ),
        ),
      ),
    ),
  ),
)

pub offer_wire-IsBytes : IsBytes (entry_bytes offer)
unfolding entry_bytes service_bytes count_to_u8 type_to_u8 to_be16 to_be24 to_be32
offer_wire-IsBytes = (
  omega arith,
  (
    omega arith,
    (
      omega arith,
      (
        omega arith,
        (
          omega arith,
          (
            omega arith,
            (
              omega arith,
              (
                omega arith,
                (
                  omega arith,
                  (
                    omega arith,
                    (
                      omega arith,
                      (omega arith, (omega arith, (omega arith, (omega arith, (omega arith, tt))))),
                    ),
                  ),
                ),
              ),
            ),
          ),
        ),
      ),
    ),
  ),
)
