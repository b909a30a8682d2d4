-- ===== src/Transport/Policy.antt =====
-- crates/desktop/src/transport_policy.rs: the choice of one transport, with the tests of its hints that
-- are in crates/desktop/src/adb.rs and crates/desktop/src/wifi.rs.
pub mod Routes
use age_plugin_phone.Base.{
  ℕ, ◌≤◌, Bool, true, false, not, ◌&&◌, ◌||◌, Option, some, none, List, [], ◌∷◌, Bytes, codes,
  bytes_eq, all, length, ltb, leb, ◌==◌, if◌then◌else◌, Result, ok, err, ok_or, ensure, refuse,
  ◌>>=◌, ◌>>◌,
}

pub data TransportChoice : Type 0 where
  auto adb ble wifi qr : TransportChoice

-- `Display`
unfoldable pub to_string : TransportChoice → Bytes
to_string auto = codes "auto"
to_string adb = codes "adb"
to_string ble = codes "ble"
to_string wifi = codes "wifi"
to_string qr = codes "qr"

-- `None` is `ParseTransportChoiceError`.
unfoldable pub from_str : Bytes → Option TransportChoice
from_str value =
    if bytes_eq value (codes "auto")
    then some auto
    else if bytes_eq value (codes "adb")
    then some adb
    else if bytes_eq value (codes "ble")
    then some ble
    else if bytes_eq value (codes "wifi")
    then some wifi
    else if bytes_eq value (codes "qr")
    then some qr
    else none

pub data TransportKind : Type 0 where
  over_adb over_ble over_wifi over_qr : TransportKind

abbrev pub same_kind : TransportKind → TransportKind → Bool
same_kind over_adb over_adb = true
same_kind over_ble over_ble = true
same_kind over_wifi over_wifi = true
same_kind over_qr over_qr = true
same_kind _ _ = false

pub data TransportOperation : Type 0 where
  pairing unwrap : TransportOperation

pub record TransportCapability : Type 0 where
  pub kind : TransportKind
  pub pairing : Bool
  pub unwrap : Bool
  pub implemented : Bool

abbrev pub transport_capabilities : List TransportCapability
transport_capabilities =
    record { kind = over_adb; pairing = true; unwrap = true; implemented = true }
    ∷ record { kind = over_ble; pairing = false; unwrap = false; implemented = false }
    ∷ record { kind = over_wifi; pairing = true; unwrap = true; implemented = true }
    ∷ record { kind = over_qr; pairing = true; unwrap = true; implemented = true }
    ∷ []

-- Addresses of the standard library: the octets of an IPv4 address.
pub data IpAddr : Type 0 where
  v4 : ℕ → ℕ → ℕ → ℕ → IpAddr
  v6 : Bytes → IpAddr

pub record SocketAddr : Type 0 where
  pub ip : IpAddr
  pub port : ℕ

pub record TransportHints : Type 0 where
  pub adb_serial : Option Bytes
  pub wifi_address : Option SocketAddr

pub record TransportRoute : Type 0 where
  pub kind : TransportKind
  pub adb_serial : Option Bytes
  pub wifi_address : Option SocketAddr

pub data TransportPolicyError : Type 0 where
  conflicting_hints inconsistent_hints invalid_route_hint : TransportPolicyError
  missing_wifi_endpoint unsupported_operation unavailable : TransportPolicyError

abbrev pub is_some : {A : Type 0} → Option A → Bool
is_some none = false
is_some (some a) = true

-- `is_ascii_graphic` leaves no white space.
unfoldable pub valid_serial : Bytes → Bool
valid_serial serial =
    not (length serial == 0) && (leb (length serial) 128 && all (λ b. leb 33 b && leb b 126) serial)

abbrev pub wifi_unwrap_port : ℕ
wifi_unwrap_port = 47140

-- `is_private`, `is_link_local` and the tests behind them.
unfoldable pub private_route : ℕ → ℕ → ℕ → ℕ → Bool
private_route a b c d =
    ((a == 10 || ((a == 172 && (leb 16 b && leb b 31)) || (a == 192 && b == 168)))
      || (a == 169 && b == 254))
    && (not (a == 0 && (b == 0 && (c == 0 && d == 0)))
        && (not (a == 127)
            && (not (leb 224 a && leb a 239)
                && not (a == 255 && (b == 255 && (c == 255 && d == 255))))))

unfoldable pub endpoint_is_valid : IpAddr → ℕ → Bool
unfolding private_route
endpoint_is_valid (v4 a b c d) port = port == wifi_unwrap_port && private_route a b c d
endpoint_is_valid (v6 address) port = false

-- The transport that a choice means.
unfoldable pub kind_of : TransportChoice → TransportHints → Bool → TransportKind
kind_of auto hints windows =
    if is_some hints.adb_serial
    then over_adb
    else if is_some hints.wifi_address
    then over_wifi
    else if windows
    then over_adb
    else over_qr
kind_of adb hints windows = over_adb
kind_of ble hints windows = over_ble
kind_of wifi hints windows = over_wifi
kind_of qr hints windows = over_qr

unfoldable pub find_capability :
    TransportKind → List TransportCapability → Option TransportCapability
find_capability kind [] = none
find_capability kind (c ∷ rest) =
    let found = find_capability kind rest in if same_kind c.kind kind then some c else found

abbrev pub supports : TransportOperation → TransportCapability → Bool
supports pairing c = c.pairing
supports unwrap c = c.unwrap

-- The hints that a transport takes.
unfoldable pub check_hints : TransportKind → TransportHints → Result TransportPolicyError (Unit {0})
check_hints over_adb hints = refuse (is_some hints.wifi_address) inconsistent_hints
check_hints over_wifi hints = do
  refuse (is_some hints.adb_serial) inconsistent_hints
  refuse (not (is_some hints.wifi_address)) missing_wifi_endpoint
check_hints over_ble hints =
    refuse (is_some hints.adb_serial || is_some hints.wifi_address) inconsistent_hints
check_hints over_qr hints =
    refuse (is_some hints.adb_serial || is_some hints.wifi_address) inconsistent_hints

abbrev pub serial_is_bad : Option Bytes → Bool
serial_is_bad none = false
serial_is_bad (some serial) = not (valid_serial serial)

abbrev pub endpoint_is_bad : Option SocketAddr → Bool
endpoint_is_bad none = false
endpoint_is_bad (some endpoint) = not (endpoint_is_valid endpoint.ip endpoint.port)

-- `resolve_transport_for_platform`
unfoldable pub resolve_transport :
    TransportChoice
    → TransportOperation
    → TransportHints
    → Bool
    → Result TransportPolicyError TransportRoute
unfolding kind_of find_capability check_hints
resolve_transport choice operation hints windows = do
  refuse (is_some hints.adb_serial && is_some hints.wifi_address) conflicting_hints
  let kind = kind_of choice hints windows
  capability ← ok_or (find_capability kind transport_capabilities) unavailable
  ensure capability.implemented unavailable
  ensure (supports operation capability) unsupported_operation
  check_hints kind hints
  refuse (serial_is_bad hints.adb_serial) invalid_route_hint
  refuse (endpoint_is_bad hints.wifi_address) invalid_route_hint
  ok (record { kind = kind; adb_serial = hints.adb_serial; wifi_address = hints.wifi_address })
