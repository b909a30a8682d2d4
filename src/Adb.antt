-- ===== src/Adb.antt =====
-- crates/desktop/src/adb.rs: which device the desktop talks to, given what `adb` prints. Texts are their
-- UTF-8 bytes.
pub mod Selection
pub mod Rules
use age_plugin_phone.Base.{
  ℕ, Bool, true, false, not, ◌&&◌, ◌||◌, Option, some, none, List, [], ◌∷◌, ◌++◌, Bytes, codes,
  bytes_eq, length, retain, ◌==◌, if◌then◌else◌, Result, ok, err, ok_or, ensure, refuse, ◌>>=◌,
  ◌>>◌,
}
use age_plugin_phone.Pairing.Lines.{
  is_space, is_space_two, is_space_three, onto_first, split_lines, trim,
}
use age_plugin_phone.Transport.Policy.{valid_serial}

pub data AdbError : Type 0 where
  unavailable no_device device_selection_required device_unavailable : AdbError
  reverse_rule_exists reverse_rule app_launch connection_timeout invalid_peer transport : AdbError

pub record Device : Type 0 where
  pub serial : Bytes
  pub state : Bytes

-- The text cut at every white space.
unfoldable pub cut_spaces : Bytes → List Bytes
cut_spaces [] = [] ∷ []
cut_spaces (a ∷ []) = if is_space a then [] ∷ [] ∷ [] else (a ∷ []) ∷ []
cut_spaces (a ∷ b ∷ []) =
    let one = cut_spaces (b ∷ []) in
    if is_space a then [] ∷ one else if is_space_two a b then [] ∷ [] ∷ [] else onto_first a one
cut_spaces (a ∷ b ∷ c ∷ text) =
    let one = cut_spaces (b ∷ c ∷ text) in
    let two = cut_spaces (c ∷ text) in
    let three = cut_spaces text in
    if is_space a
    then [] ∷ one
    else if is_space_two a b
    then [] ∷ two
    else if is_space_three a b c
    then [] ∷ three
    else onto_first a one

abbrev pub is_filled : Bytes → Bool
is_filled [] = false
is_filled (b ∷ text) = true

unfoldable pub split_whitespace : Bytes → List Bytes
unfolding cut_spaces
split_whitespace text = retain is_filled (cut_spaces text)

-- The fields of a line: a serial number and a state, and no more.
unfoldable pub device_of : List Bytes → Result AdbError Device
device_of (serial ∷ state ∷ []) = do
  ensure (valid_serial serial) unavailable
  ok (record { serial = serial; state = state })
device_of _ = err unavailable

unfoldable pub parse_lines : List Bytes → Result AdbError (List Device)
unfolding device_of split_whitespace
parse_lines [] = ok []
parse_lines (line ∷ lines) = do
  device ← device_of (split_whitespace line)
  devices ← parse_lines lines
  ok (device ∷ devices)

-- A line that is not blank.
unfoldable pub is_written : Bytes → Bool
is_written line = is_filled (trim line)

unfoldable pub parse_devices_lines : List Bytes → Result AdbError (List Device)
unfolding parse_lines is_written
parse_devices_lines [] = err unavailable
parse_devices_lines (head ∷ lines) = do
  ensure (bytes_eq (trim head) (codes "List of devices attached")) unavailable
  parse_lines (retain is_written lines)

unfoldable pub parse_devices : Bytes → Result AdbError (List Device)
unfolding parse_devices_lines
parse_devices output = parse_devices_lines (split_lines output)

abbrev pub is_online : Device → Bool
is_online device = bytes_eq device.state (codes "device")

unfoldable pub find_online : Bytes → List Device → Option Bytes
find_online serial [] = none
find_online serial (device ∷ devices) =
    let rest = find_online serial devices in
    if bytes_eq device.serial serial && is_online device then some device.serial else rest

unfoldable pub only_online : List Device → Result AdbError Bytes
only_online [] = err no_device
only_online (device ∷ []) = do ensure (is_online device) device_unavailable; ok device.serial
only_online _ = err device_selection_required

-- `select_device`, given the list of devices.
unfoldable pub choose_device : List Device → Option Bytes → Result AdbError Bytes
unfolding find_online only_online
choose_device devices none = only_online devices
choose_device devices (some serial) = do
  ensure (valid_serial serial) device_unavailable
  ok_or (find_online serial devices) device_unavailable

-- `none` is a command that failed.
unfoldable pub select_device : Option Bytes → Option Bytes → Result AdbError Bytes
unfolding parse_devices choose_device
select_device output requested = do
  text ← ok_or output unavailable
  devices ← parse_devices text
  choose_device devices requested

unfoldable pub ensure_same_online_device : Option Bytes → Bytes → Result AdbError (Unit {0})
unfolding select_device
ensure_same_online_device output serial = do
  selected ← select_device output (some serial)
  ensure (bytes_eq selected serial) device_unavailable

-- A rule of `adb reverse --list`: the transport, the phone's socket and the desktop's. The test of a
-- field is that of a serial number.
unfoldable pub rule_of : Bytes → List Bytes → Result AdbError (Unit {0})
rule_of reverse_spec (transport' ∷ phone_spec ∷ desktop_spec ∷ []) = do
  ensure (valid_serial transport' && (valid_serial phone_spec && valid_serial desktop_spec))
      unavailable
  refuse (bytes_eq phone_spec reverse_spec) reverse_rule_exists
rule_of reverse_spec _ = err unavailable

unfoldable pub reject_rules : Bytes → List Bytes → Result AdbError (Unit {0})
unfolding rule_of split_whitespace
reject_rules reverse_spec [] = ok tt
reject_rules reverse_spec (line ∷ lines) = do
  rule_of reverse_spec (split_whitespace line)
  reject_rules reverse_spec lines

unfoldable pub reject_existing_rule : Option Bytes → Bytes → Result AdbError (Unit {0})
unfolding reject_rules is_written
reject_existing_rule output reverse_spec = do
  text ← ok_or output unavailable
  reject_rules reverse_spec (retain is_written (split_lines text))

-- The socket of the phone's side: port 47139 of its loopback.
abbrev pub android_reverse_spec : Bytes
android_reverse_spec = codes "tcp:47139"

-- The list of devices, and the list of rules of the device that is selected.
unfoldable pub preflight_device :
    Option Bytes → (Bytes → Option Bytes) → Option Bytes → Result AdbError Bytes
unfolding select_device reject_existing_rule
preflight_device devices rules requested = do
  serial ← select_device devices requested
  reject_existing_rule (rules serial) android_reverse_spec
  ok serial
