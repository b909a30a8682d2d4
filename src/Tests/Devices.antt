-- ===== src/Tests/Devices.antt =====
-- What `adb` prints, and a response to a discovery query.
use age_plugin_phone.Base.{
  ℕ, err, [], none, retain, ◌≡◌, refl, true, some, List, ◌∷◌, ◌++◌, Bytes, codes, bytes_eq, ok,
  replicate, All,
}
use age_plugin_phone.Discovery.{
  for_unwrap, DiscoveryQuery, encode_discovery, is_signed, valid_for, valid_discovery_response,
}
use age_plugin_phone.Discovery.Binding.{FitsQuery, SameQuery, valid_discovery_response-SameQuery}
use age_plugin_phone.Discovery.Search.{
  Pass, datagram, waited, discovery, insert, record_discovery_candidate, endpoint_of, answer_of,
  verdict, run_pass, run_passes, discover_with_io,
}
use age_plugin_phone.Discovery.Unique.{AllAre, answers, discover_with_io-AllAre}
use age_plugin_phone.Pairing.Lines.{split_lines, trim}
use age_plugin_phone.Transport.{u16_to_be}
use age_plugin_phone.Transport.Policy.{
  v4, SocketAddr, private_route, endpoint_is_valid, valid_serial,
}
use age_plugin_phone.Adb.{
  Device, cut_spaces, split_whitespace, device_of, parse_lines, is_written, parse_devices_lines,
  parse_devices, find_online, choose_device, select_device, only_online, device_selection_required,
  preflight_device, android_reverse_spec, rule_of, reject_rules, reject_existing_rule,
}
use age_plugin_phone.Adb.Selection.{IsOnlineIn, Answers, IsNamed}
use age_plugin_phone.Adb.Rules.{IsOther, preflight_device_sound}
use age_plugin_phone.Tests.Toy.{toy, toy_sign, checksum, total}

abbrev printed : Bytes
printed = codes "List of devices attached\nemulator-5554\toffline\nR5CT\tdevice\n\n"

chosen : select_device (some printed) (some (codes "R5CT")) ≡ ok (codes "R5CT")
unfolding select_device choose_device find_online parse_devices parse_devices_lines parse_lines
    is_written device_of split_whitespace cut_spaces valid_serial bytes_eq trim split_lines
chosen = refl

abbrev rules : Bytes
rules = codes "UsbFfs tcp:8081 tcp:8081\n"

let_through : reject_existing_rule (some rules) (codes "tcp:47139") ≡ ok tt
unfolding reject_existing_rule reject_rules rule_of is_written split_whitespace cut_spaces
    valid_serial bytes_eq trim split_lines
let_through = refl

preflight :
    preflight_device (some printed) (λ serial. some rules) none ≡ err device_selection_required
unfolding preflight_device select_device choose_device only_online parse_devices parse_devices_lines
    parse_lines is_written device_of split_whitespace cut_spaces valid_serial bytes_eq trim
    split_lines
preflight = refl

preflighted :
    preflight_device (some printed) (λ serial. some rules) (some (codes "R5CT")) ≡ ok (codes "R5CT")
unfolding preflight_device select_device choose_device find_online parse_devices parse_devices_lines
    parse_lines is_written device_of split_whitespace cut_spaces valid_serial bytes_eq trim
    split_lines reject_existing_rule reject_rules rule_of
preflighted = refl

preflight_device_sound_example :
    ((text : Bytes) × (some printed ≡ some text)
      × (devices : List Device) × (parse_devices text ≡ ok devices)
      × All IsNamed devices
      × IsOnlineIn devices (codes "R5CT")
      × Answers devices (some (codes "R5CT")) (codes "R5CT"))
    × ((listing : Bytes) × (some rules ≡ some listing)
        × All (IsOther android_reverse_spec) (retain is_written (split_lines listing)))
preflight_device_sound_example =
    preflight_device_sound (some printed) (λ serial. some rules) (some (codes "R5CT"))
      (codes "R5CT") preflighted

abbrev query : DiscoveryQuery
query = record {
  purpose = for_unwrap;
  nonce = replicate 32 7;
  desktop_id = replicate 16 1;
  identity_id = replicate 16 2;
}

query-FitsQuery : FitsQuery query
query-FitsQuery = record { nonce_fits = refl; desktop_fits = refl; identity_fits = refl }

abbrev response : Bytes
response =
    encode_discovery query 2
    ++ toy_sign true (
        checksum
          (codes "age-plugin-phone/wifi-discovery-response/v1" ++ (0 ∷ encode_discovery query 2)))

response-valid : valid_discovery_response toy response query (some true) ≡ true
unfolding valid_discovery_response valid_for is_signed encode_discovery u16_to_be bytes_eq total
response-valid = refl

valid_discovery_response-SameQuery_example : SameQuery query query
valid_discovery_response-SameQuery_example =
    valid_discovery_response-SameQuery toy response query query (some true) (some true)
      query-FitsQuery query-FitsQuery response-valid response-valid

-- A phone at 192.168.1.5 that answers, a pass without an answer, and a second answer of the phone.
abbrev phone : SocketAddr
phone = record { ip = v4 192 168 1 5; port = 47140 }

abbrev passes : List Pass
passes =
    record {
      now = 1000;
      sent = ok tt;
      received = datagram response (record { ip = v4 192 168 1 5; port = 47141 });
    }
    ∷ record { now = 1200; sent = ok tt; received = waited }
    ∷ record {
      now = 1300;
      sent = err discovery;
      received = datagram response (record { ip = v4 192 168 1 5; port = 47141 });
    }
    ∷ []

found : discover_with_io toy query (some true) (some 4000) 1000 passes ≡ ok phone
unfolding discover_with_io run_passes run_pass verdict answer_of endpoint_of endpoint_is_valid
    private_route record_discovery_candidate insert valid_discovery_response valid_for is_signed
    encode_discovery u16_to_be bytes_eq total
found = refl

discover_with_io-AllAre_example :
    (limit : ℕ) × (some 4000 ≡ some limit)
    × (rest : List SocketAddr) × (answers toy query (some true) limit passes ≡ phone ∷ rest)
    × AllAre phone rest
discover_with_io-AllAre_example =
    discover_with_io-AllAre toy query (some true) (some 4000) 1000 passes phone found
