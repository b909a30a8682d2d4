-- ===== src/Discovery/Search.antt =====
-- crates/desktop/src/wifi.rs: the loop of the discovery. Each pass of the loop is given the time at which
-- it begins, how the sending of the query ends if it is due, and what is received. The list ends with the
-- deadline.
use age_plugin_phone.Base.{
  ℕ, ◌+◌, Bool, false, ◌&&◌, Option, some, none, List, [], ◌∷◌, Bytes, bytes_eq, length, ltb, leb,
  any, ◌==◌, if◌then◌else◌, Result, ok, err,
}
use age_plugin_phone.Base.Exec.{Exec, lift, ◌>>◌}
use age_plugin_phone.Crypto.{Crypto}
use age_plugin_phone.Transport.Policy.{
  IpAddr, v4, v6, SocketAddr, wifi_unwrap_port, endpoint_is_valid,
}
use age_plugin_phone.Discovery.{DiscoveryQuery, valid_discovery_response}

pub data WifiError : Type 0 where
  invalid_endpoint unavailable connection_timeout transport : WifiError
  discovery_unavailable discovery_ambiguous discovery : WifiError

abbrev pub discovery_retry_interval : ℕ
discovery_retry_interval = 200

-- What `receive` returns: the bytes in the buffer and their source, an error of the four kinds after which
-- the loop goes on, or another error.
pub data Received : Type 0 where
  datagram : Bytes → SocketAddr → Received
  waited failed : Received

pub record Pass : Type 0 where
  pub now : ℕ
  pub sent : Result WifiError (Unit {0})
  pub received : Received

abbrev pub ip_eq : IpAddr → IpAddr → Bool
ip_eq (v4 a b c d) (v4 a' b' c' d') = a == a' && (b == b' && (c == c' && d == d'))
ip_eq (v6 a) (v6 b) = bytes_eq a b
ip_eq _ _ = false

abbrev pub endpoint_eq : SocketAddr → SocketAddr → Bool
endpoint_eq a b = ip_eq a.ip b.ip && a.port == b.port

unfoldable pub insert : SocketAddr → List SocketAddr → List SocketAddr
insert endpoint candidates =
    if any (endpoint_eq endpoint) candidates then candidates else endpoint ∷ candidates

unfoldable pub record_discovery_candidate : SocketAddr → Exec (List SocketAddr) WifiError (Unit {0})
unfolding insert
record_discovery_candidate endpoint candidates =
    let kept = insert endpoint candidates in
    (if ltb 1 (length kept) then err discovery_ambiguous else ok tt, kept)

-- The endpoint that a datagram makes a candidate.
module _ (x : Crypto) (query : DiscoveryQuery) (key : Option x.Point) where
  unfoldable pub endpoint_of : Bytes → IpAddr → Option SocketAddr
  endpoint_of encoded (v6 address) = none
  endpoint_of encoded (v4 a b c d) =
      let endpoint : SocketAddr = record { ip = v4 a b c d; port = wifi_unwrap_port } in
      if endpoint_is_valid endpoint.ip endpoint.port && valid_discovery_response x encoded query key
      then some endpoint
      else none

  unfoldable pub answer_of : Received → Option SocketAddr
  unfolding endpoint_of
  answer_of (datagram encoded source) = endpoint_of encoded source.ip
  answer_of waited = none
  answer_of failed = none

abbrev pub take_answer : Option SocketAddr → Exec (List SocketAddr) WifiError (Unit {0})
take_answer none = lift (ok tt)
take_answer (some endpoint) = record_discovery_candidate endpoint

abbrev pub went_on : Received → Result WifiError (Unit {0})
went_on failed = err discovery
went_on waited = ok tt
went_on (datagram encoded source) = ok tt

abbrev pub send_due : ℕ → Pass → Result WifiError (Unit {0})
send_due next_send pass = if leb next_send pass.now then pass.sent else ok tt

abbrev pub next_after : ℕ → Pass → ℕ
next_after next_send pass =
    if leb next_send pass.now then pass.now + discovery_retry_interval else next_send

unfoldable pub verdict : Exec (List SocketAddr) WifiError SocketAddr
verdict [] = (err discovery_unavailable, [])
verdict (endpoint ∷ []) = (ok endpoint, endpoint ∷ [])
verdict (a ∷ b ∷ candidates) = (err discovery_ambiguous, a ∷ b ∷ candidates)

module _ (x : Crypto) (query : DiscoveryQuery) (key : Option x.Point) where
  unfoldable pub run_pass : ℕ → Pass → Exec (List SocketAddr) WifiError (Unit {0})
  unfolding answer_of record_discovery_candidate
  run_pass next_send pass = do
    lift (send_due next_send pass)
    lift (went_on pass.received)
    take_answer (answer_of x query key pass.received)

  unfoldable pub run_passes : ℕ → ℕ → List Pass → Exec (List SocketAddr) WifiError (Unit {0})
  unfolding run_pass
  run_passes deadline next_send [] = lift (ok tt)
  run_passes deadline next_send (pass ∷ passes) =
      let rest = run_passes deadline (next_after next_send pass) passes in
      if leb deadline pass.now then lift (ok tt) else run_pass next_send pass >> rest

  -- The deadline is the sum of the start and the timeout, if the clock can hold it.
  unfoldable pub discover_with_io : Option ℕ → ℕ → List Pass → Result WifiError SocketAddr
  unfolding run_passes verdict
  discover_with_io none started passes = err discovery
  discover_with_io (some deadline) started passes =
      ((run_passes deadline started passes >> verdict) []).0
