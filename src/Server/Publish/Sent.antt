-- ===== src/Server/Publish/Sent.antt =====
-- What the publisher of src/server/event_publisher.rs sends, and what it returns.
use simple_someip.Prelude.{
  ℕ, suc, ◌+◌, ◌≡◌, refl, ap, ◌∙◌, arith, List, [], ◌∷◌, Option, none, some, ok, err, ◌==◌,
  if◌then◌else◌,
}
use simple_someip.Transport.{TransportError}
use simple_someip.Server.Error.{transport}
use simple_someip.Server.Publish.{
  counted, latest, send_each, sent_result, send_all, unwrap_or_unsupported,
}

module _ {Addr Sock : Type 0} (send_to : Sock → List ℕ → Addr → Option TransportError × Sock) where
  -- The outcome of each send, in order, and the socket after them all: the sends do not depend on
  -- what came of the others, but for the socket.
  unfoldable pub outcomes : Sock → List ℕ → List Addr → List (Option TransportError) × Sock
  outcomes sock datagram [] = ([], sock)
  outcomes sock datagram (addr ∷ addrs) =
      let (failed, next) = send_to sock datagram addr in
      let (rest, after) = outcomes next datagram addrs in (failed ∷ rest, after)

  unfoldable pub successes : List (Option TransportError) → ℕ
  successes [] = 0
  successes (none ∷ os) = suc (successes os)
  successes (some e ∷ os) = successes os

  unfoldable pub last_error :
      Option TransportError → List (Option TransportError) → Option TransportError
  last_error last [] = last
  last_error last (none ∷ os) = last_error last os
  last_error last (some e ∷ os) = last_error (some e) os

  one_more :
      (o : Option TransportError) (os : List (Option TransportError)) (sent : ℕ)
      → (last : Option TransportError)
      → ◌≡◌ {A = ℕ × Option TransportError}
          (counted o sent + successes os, last_error (latest o last) os)
          (sent + successes (o ∷ os), last_error last (o ∷ os))
  unfolding counted latest successes last_error
  one_more none os sent last = ap (λ (n : ℕ). (n, last_error last os)) (omega arith)
  one_more (some e) os sent last = refl

  send_each-eq :
      (sock : Sock) (datagram : List ℕ) (addrs : List Addr) (sent : ℕ)
      → (last : Option TransportError)
      → send_each send_to sock datagram addrs sent last ≡ (
        (
          sent + successes (outcomes sock datagram addrs).0,
          last_error last (outcomes sock datagram addrs).0,
        ),
        (outcomes sock datagram addrs).1,
      )
  unfolding send_each outcomes
  send_each-eq sock datagram [] sent last =
      unfold successes last_error in ap (λ (n : ℕ). ((n, last), sock)) (omega arith)
  send_each-eq sock datagram (addr ∷ addrs) sent last =
      let (failed, next) = send_to sock datagram addr in
      let (rest, after) = outcomes next datagram addrs in
      send_each-eq next datagram addrs (counted failed sent) (latest failed last)
      ∙ ap (λ (q : ℕ × Option TransportError). (q, after)) (one_more failed rest sent last)

  -- A datagram is sent to every address in order, whatever comes of the other sends. The result is
  -- the number of sends with no error if there is one, and otherwise the last error.
  pub send_all-outcomes :
      (sock : Sock) (datagram : List ℕ) (addrs : List Addr)
      → send_all send_to sock datagram addrs ≡ (
        (if successes (outcomes sock datagram addrs).0 == 0
            then err (
                transport (
                  unwrap_or_unsupported send_to (last_error none (outcomes sock datagram addrs).0)))
            else ok (successes (outcomes sock datagram addrs).0)),
        (outcomes sock datagram addrs).1,
      )
  unfolding send_all sent_result
  send_all-outcomes sock datagram addrs =
      let plus : 0 + successes (outcomes sock datagram addrs).0
          ≡ successes (outcomes sock datagram addrs).0 =
        omega arith in
      rw (send_each-eq sock datagram addrs 0 none, plus) refl
