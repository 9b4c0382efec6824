-- ===== src/Lib.antt =====
-- A model of simple_someip, a SOME/IP and service discovery library, with proofs.
--
-- The program's parts.
--   src/protocol holds the wire format: the 16-byte SOME/IP header (header.rs) with its message id
--   (message_id.rs), type (message_type.rs) and return code (return_code.rs), the message
--   (message.rs) and the service discovery format (sd/flags.rs, sd/entry.rs, sd/options.rs,
--   sd/header.rs). A payload format is a type with the trait PayloadWireFormat (src/traits.rs);
--   RawPayload (src/raw_payload.rs) and HeaplessPayload (src/heapless_payload.rs) are two. A
--   receiver parses a buffer to views that point into it and makes owned values of them; a sender
--   encodes an owned value into a writer. src/sd_codec.rs builds and parses whole datagrams in a
--   caller's buffer. src/e2e protects payloads with a counter and a CRC, with a registry of profiles
--   and states. The server (src/server) keeps subscriptions, answers service discovery messages and
--   requests in its receive loop, and publishes events to the subscribers; the client keeps a
--   tracker of sessions and a registry of endpoints. Buffers come from a pool (src/buffer_pool.rs),
--   and on bare metal datagrams come through a mailbox (src/bare_metal_runtime/mailbox.rs).
--
-- Where a part is modelled. The names are those of the source in snake case or camel case.
--   Prelude, Bits, Bytes    shared lemmas; `u8`..`u32` as numbers with range predicates; indexing,
--                           slicing and copying; Bytes.Writer is src/protocol/byte_order.rs, and
--                           Bytes.Slice is `encode_to_slice` of src/traits.rs over a writer into a
--                           slice.
--   Protocol                Error, MessageId, MessageType, ReturnCode, Header, Message: one module
--                           for each file of src/protocol. Encode holds an encoder and the bytes it
--                           is to write, RoundTrip what a parser makes of those bytes.
--   Sd                      Flags, Entry, Options, Header: one module for each file of
--                           src/protocol/sd. Options.Validate is `validate_option`; Header.Views is
--                           about what the iterators find in a message that was accepted.
--   Traits, Payload         the trait PayloadWireFormat as an interface, and RawPayload as an
--                           implementation of it; Payload.Visit holds its visitors.
--   HeaplessPayload         the payload of fixed capacity; Agree compares it with RawPayload.
--   SdCodec                 src/sd_codec.rs: Build, Notify and Parse hold the functions, Session the
--                           session counter; Built and Offers tell what a receiver reads.
--   NetEndpoint, Transport  the addresses of src/net_endpoint.rs and the errors of src/transport.rs.
--   E2e                     Crc, Protect, Check and Sequence are crc.rs, e2e_protector.rs and
--                           e2e_checker.rs of src/e2e; Link puts a sender and a receiver in turn;
--                           Profile is the dispatch of mod.rs, Frames takes a frame of any profile
--                           from one end to the other, and Registry is registry.rs.
--   Pool, Mailbox           src/buffer_pool.rs and src/bare_metal_runtime/mailbox.rs. Pool has a
--                           claim in one run and as the atomic steps of any number of tasks.
--   FreeList                the free list of the channel pools of src/static_channels/mod.rs.
--   Maps                    the interface of the index map of the crate heapless.
--   Client                  Session and ServiceRegistry are session.rs and service_registry.rs of
--                           src/client; Reboot lets the tracker follow the messages of a server.
--                           SocketManager is the receive path of a socket of socket_manager.rs and
--                           its session counter.
--   Server                  Config is the configuration of src/server/mod.rs; SdState, Subscriptions
--                           and Publish are sd_state.rs, subscription_manager.rs and
--                           event_publisher.rs of src/server. Runtime holds the handlers of
--                           runtime.rs, with Runtime.Endpoint for `extract_subscriber_endpoint`, and
--                           Receive its receive loop and the dispatch of requests.
--   Tests                   test data and runs at concrete inputs.
--
-- How code is modelled.
--   A fallible function returns a Result, whose `panic` stands for a Rust panic: an index or slice
--   out of bounds, a failed assertion or expectation, a subtraction below zero in a debug build. A
--   byte slice is a list of numbers, and a view is a record of its bytes. A writer is a parameter:
--   a state, `write_all`, and the laws that writing nothing changes nothing and that two writes in
--   a row are one write of both lists; a writer into a slice has the laws of `&mut [u8]` besides.
--   `usize` has 64 bits and a buffer fits in memory, so that sums of sizes that come from a buffer
--   or from `u32` fields do not overflow; the parser of the service discovery header checks its
--   sums, and Sd.Header has it for any width of `usize` besides. The crates crc and heapless are parameters: a digest whose
--   checksum fits its width, and a map of bounded size with the equations of its operations; both
--   have an instance among the tests. A socket is a parameter, a function from a datagram and an
--   address to an error or none and the socket's next state, and the callback of an observer is one
--   as well. An operation on an atomic or on a locked state is one step, so that calls come one
--   after another; only the pool has the steps of its tasks interleaved. An `await` is a call that
--   runs to its end. The receive loop runs over a list of receptions, in the order in which its
--   select takes them, so that the choice between the two sockets is in the list.
--
-- Loops. The iterators run on the length of the buffer as fuel, since each step takes three bytes
--   at least. The loops of the service discovery parser run on the size of their array plus one;
--   running out is a `panic` of the model, and when parsing panics is proved. The search for
--   a session id ends after two rounds. Every other loop is structural recursion over a list.
--
-- Not modelled: the run loop of the client (src/client/inner.rs) and the sends of
--   src/client/socket_manager.rs, whose steps are polls of channels and sockets; the channels and
--   wakers of src/static_channels; the binding of sockets and the construction of servers and
--   clients; executors, timers, logging, and text output.
pub mod Prelude
pub mod Bits
pub mod Bytes
pub mod Protocol
pub mod Sd
pub mod Traits
pub mod NetEndpoint
pub mod Payload
pub mod Pool
pub mod Mailbox
pub mod FreeList
pub mod HeaplessPayload
pub mod SdCodec
pub mod E2e
pub mod Transport
pub mod Maps
pub mod Client
pub mod Server
mod Tests
