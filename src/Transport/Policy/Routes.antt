-- ===== src/Transport/Policy/Routes.antt =====
-- crates/desktop/src/transport_policy.rs: the routes there are.
use age_plugin_phone.Base.{
  ◌↔◌, ◌≡◌, refl, sym, ap, ◌∙◌, Bool, true, false, Option, some, none, arith, Bytes, codes,
  bytes_eq, bytes_eq_sound, if◌then◌else◌, Result, ok, err,
}
use mathlib.Core.Path.{subst}
use age_plugin_phone.Transport.Policy.{
  TransportChoice, auto, adb, ble, wifi, qr, to_string, from_str, over_adb, over_wifi, over_qr,
  TransportOperation, SocketAddr, TransportRoute, valid_serial, endpoint_is_valid,
  resolve_transport,
}

pub from_str-to_string : (choice : TransportChoice) → from_str (to_string choice) ≡ some choice
unfolding from_str to_string bytes_eq
from_str-to_string auto = refl
from_str-to_string adb = refl
from_str-to_string ble = refl
from_str-to_string wifi = refl
from_str-to_string qr = refl

-- One test of `from_str`.
tested :
    (P : TransportChoice → Type 0) (test : Bool) (value choice : TransportChoice)
    (others : Option TransportChoice)
    → (test ≡ true → P value)
    → (others ≡ some choice → P choice)
    → (if test then some value else others) ≡ some choice
    → P choice
tested P true value choice others hit miss e =
    subst P (ap (λ o. elim o as (λ o'. TransportChoice) [ none ↦ value | some c ↦ c ]) e) (hit refl)
tested P false value choice others hit miss e = miss e

to_string-from_str :
    (text : Bytes) (choice : TransportChoice)
    → from_str text ≡ some choice
    → to_string choice ≡ text
unfolding from_str to_string
to_string-from_str text choice =
    let P : TransportChoice → Type 0 = λ c. to_string c ≡ text in
    let named : (word : Bytes) → bytes_eq text word ≡ true → word ≡ text =
      λ word e. sym (bytes_eq_sound text word e) in
    tested P (bytes_eq text (codes "auto")) auto choice _ (named (codes "auto")) (
      tested P (bytes_eq text (codes "adb")) adb choice _ (named (codes "adb")) (
        tested P (bytes_eq text (codes "ble")) ble choice _ (named (codes "ble")) (
          tested P (bytes_eq text (codes "wifi")) wifi choice _ (named (codes "wifi"))
            (tested P (bytes_eq text (codes "qr")) qr choice none (named (codes "qr")) (λ e. cc)))))

-- A text is read as a choice exactly when it is the text that is written for the choice.
pub from_str_iff :
    (text : Bytes) (choice : TransportChoice)
    → (from_str text ≡ some choice) ↔ (text ≡ to_string choice)
from_str_iff text choice =
    (λ e. sym (to_string-from_str text choice e), λ e. ap from_str e ∙ from_str-to_string choice)

-- Which route a choice and its hints allow: without a hint there is one for ADB and QR, and the default of
-- the platform; a serial number goes with ADB and an endpoint with Wi-Fi, each also without a choice.
abbrev pub allowed :
    TransportChoice → Bool → Option Bytes → Option SocketAddr → Option TransportRoute
allowed auto windows none none = some (record {
  kind = if windows then over_adb else over_qr;
  adb_serial = none;
  wifi_address = none;
})
allowed adb windows none none =
    some (record { kind = over_adb; adb_serial = none; wifi_address = none })
allowed qr windows none none =
    some (record { kind = over_qr; adb_serial = none; wifi_address = none })
allowed auto windows (some serial) none =
    if valid_serial serial
    then some (record { kind = over_adb; adb_serial = some serial; wifi_address = none })
    else none
allowed adb windows (some serial) none =
    if valid_serial serial
    then some (record { kind = over_adb; adb_serial = some serial; wifi_address = none })
    else none
allowed auto windows none (some endpoint) =
    if endpoint_is_valid endpoint.ip endpoint.port
    then some (record { kind = over_wifi; adb_serial = none; wifi_address = some endpoint })
    else none
allowed wifi windows none (some endpoint) =
    if endpoint_is_valid endpoint.ip endpoint.port
    then some (record { kind = over_wifi; adb_serial = none; wifi_address = some endpoint })
    else none
allowed _ windows _ _ = none

abbrev pub success : {E A : Type 0} → Result E A → Option A
success (ok a) = some a
success (err e) = none

-- Whatever the operation, a route is found exactly when the table allows it, and it is that of the
-- table: there is no route over BLE, hints are never combined or dropped, and each is tested.
pub resolve_transport-allowed :
    (choice : TransportChoice) (operation : TransportOperation) (windows : Bool)
    (serial : Option Bytes) (endpoint : Option SocketAddr)
    → success (
        resolve_transport choice operation
          (record { adb_serial = serial; wifi_address = endpoint })
          windows)
      ≡ allowed choice windows serial endpoint
unfolding resolve_transport
resolve_transport-allowed auto operation windows none none = ground arith
resolve_transport-allowed auto operation windows none (some endpoint) = ground arith
resolve_transport-allowed auto operation windows (some serial) none = ground arith
resolve_transport-allowed auto operation windows (some serial) (some endpoint) = ground arith
resolve_transport-allowed adb operation windows none none = ground arith
resolve_transport-allowed adb operation windows none (some endpoint) = ground arith
resolve_transport-allowed adb operation windows (some serial) none = ground arith
resolve_transport-allowed adb operation windows (some serial) (some endpoint) = ground arith
resolve_transport-allowed ble operation windows none none = ground arith
resolve_transport-allowed ble operation windows none (some endpoint) = ground arith
resolve_transport-allowed ble operation windows (some serial) none = ground arith
resolve_transport-allowed ble operation windows (some serial) (some endpoint) = ground arith
resolve_transport-allowed wifi operation windows none none = ground arith
resolve_transport-allowed wifi operation windows none (some endpoint) = ground arith
resolve_transport-allowed wifi operation windows (some serial) none = ground arith
resolve_transport-allowed wifi operation windows (some serial) (some endpoint) = ground arith
resolve_transport-allowed qr operation windows none none = ground arith
resolve_transport-allowed qr operation windows none (some endpoint) = ground arith
resolve_transport-allowed qr operation windows (some serial) none = ground arith
resolve_transport-allowed qr operation windows (some serial) (some endpoint) = ground arith
