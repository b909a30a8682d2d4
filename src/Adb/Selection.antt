-- ===== src/Adb/Selection.antt =====
-- crates/desktop/src/adb.rs: the device that is selected.
use age_plugin_phone.Base.{
  ◌≡◌, refl, sym, ap, ◌∙◌, true, ◌&&◌, Bool-cases, inl, inr, Option, some, none, List, [], ◌∷◌,
  ◌++◌, Bytes, codes, bytes_eq, bytes_eq_sound, ok, ensure, ensure-ok, ok_step, ok_after, retain,
  ok_or, ok_or-ok, ok_injective, All, &&-parts,
}
use mathlib.Core.Path.{subst}
use age_plugin_phone.Pairing.Lines.{split_lines, trim}
use age_plugin_phone.Transport.Policy.{valid_serial}
use age_plugin_phone.Adb.{
  unavailable, device_unavailable, Device, is_online, split_whitespace, device_of, parse_lines,
  is_written, parse_devices_lines, parse_devices, find_online, only_online, choose_device,
  select_device,
}

-- The list names a device that is online, by this serial number.
pub record IsOnlineIn (devices : List Device) (serial : Bytes) : Type 0 where
  pub before : List Device
  pub device : Device
  pub after : List Device
  pub listed : devices ≡ before ++ (device ∷ after)
  pub named : device.serial ≡ serial
  pub online : device.state ≡ codes "device"

-- What was asked for: a serial number is the one selected; without one there is one device.
abbrev pub Answers : List Device → Option Bytes → Bytes → Type 0
Answers devices none selected = (device : Device) × (devices ≡ device ∷ [])
Answers devices (some serial) selected = selected ≡ serial

behind :
    (d : Device) (devices : List Device) (serial : Bytes)
    → IsOnlineIn devices serial
    → IsOnlineIn (d ∷ devices) serial
behind d devices serial found = record {
  before = d ∷ found.before;
  device = found.device;
  after = found.after;
  listed = ap (λ l. d ∷ l) found.listed;
  named = found.named;
  online = found.online;
}

find_online_sound :
    (serial : Bytes) (devices : List Device) (selected : Bytes)
    → find_online serial devices ≡ some selected
    → IsOnlineIn devices selected × (selected ≡ serial)
unfolding find_online
find_online_sound serial [] selected e = cc
find_online_sound serial (d ∷ devices) selected e =
    elim (Bool-cases (bytes_eq d.serial serial && is_online d)) [
      | inl hit ↦
          let (same, on) = &&-parts (bytes_eq d.serial serial) (is_online d) hit in
          let first : some d.serial ≡ some selected = sym (simp hit) ∙ e in
          let named = ap (λ o. elim o as (λ o'. Bytes) [ none ↦ [] | some b ↦ b ]) first in
          (
            record {
              before = [];
              device = d;
              after = devices;
              listed = refl;
              named = named;
              online = bytes_eq_sound d.state (codes "device") on;
            },
            sym named ∙ bytes_eq_sound d.serial serial same,
          )
      | inr miss ↦
          let rest : find_online serial devices ≡ some selected = sym (simp miss) ∙ e in
          let (found, same) = find_online_sound serial devices selected rest in
          (behind d devices selected found, same)
    ]

only_online_sound :
    (devices : List Device) (selected : Bytes)
    → only_online devices ≡ ok selected
    → IsOnlineIn devices selected × Answers devices none selected
unfolding only_online
only_online_sound [] selected e = cc
only_online_sound (d ∷ []) selected e =
    ok_step _ (ensure (is_online d) device_unavailable) _
      (λ u on last. (
        record {
          before = [];
          device = d;
          after = [];
          listed = refl;
          named = ok_injective d.serial selected (ok d.serial) refl last;
          online =
              bytes_eq_sound d.state (codes "device")
                (ensure-ok (is_online d) device_unavailable u on);
        },
        (d, refl),
      ))
      e
only_online_sound (d ∷ d' ∷ devices) selected e = cc

choose_device_sound :
    (devices : List Device) (requested : Option Bytes) (selected : Bytes)
    → choose_device devices requested ≡ ok selected
    → IsOnlineIn devices selected × Answers devices requested selected
unfolding choose_device
choose_device_sound devices none selected e = only_online_sound devices selected e
choose_device_sound devices (some serial) selected e =
    ok_step _ (ensure (valid_serial serial) device_unavailable) _
      (λ u valid last.
        find_online_sound serial devices selected
          (ok_or-ok (find_online serial devices) device_unavailable selected last))
      e

abbrev pub IsNamed : Device → Type 0
IsNamed device = valid_serial device.serial ≡ true

device_of-IsNamed : (fields : List Bytes) (d : Device) → device_of fields ≡ ok d → IsNamed d
unfolding device_of
device_of-IsNamed [] d e = cc
device_of-IsNamed (a ∷ []) d e = cc
device_of-IsNamed (serial ∷ state ∷ []) d e =
    ok_step _ (ensure (valid_serial serial) unavailable) _
      (λ u valid last.
        subst IsNamed
          (ok_injective (record { serial = serial; state = state }) d
            (ok (record { serial = serial; state = state })) refl last)
          (ensure-ok (valid_serial serial) unavailable u valid))
      e
device_of-IsNamed (a ∷ b ∷ c ∷ fields) d e = cc

parse_lines-IsNamed :
    (lines : List Bytes) (devices : List Device)
    → parse_lines lines ≡ ok devices
    → All IsNamed devices
unfolding parse_lines
parse_lines-IsNamed [] devices e = subst (All IsNamed) (ok_injective [] devices (ok []) refl e) tt
parse_lines-IsNamed (line ∷ lines) devices e =
    ok_step _ (device_of (split_whitespace line)) _
      (λ d first. ok_step _ (parse_lines lines) _ (λ ds others last.
        subst (All IsNamed) (ok_injective (d ∷ ds) devices (ok (d ∷ ds)) refl last)
          (device_of-IsNamed (split_whitespace line) d first, parse_lines-IsNamed lines ds others)))
      e

parse_devices_lines-IsNamed :
    (lines : List Bytes) (devices : List Device)
    → parse_devices_lines lines ≡ ok devices
    → All IsNamed devices
unfolding parse_devices_lines
parse_devices_lines-IsNamed [] devices e = cc
parse_devices_lines-IsNamed (head ∷ lines) devices e =
    ok_after _ (ensure (bytes_eq (trim head) (codes "List of devices attached")) unavailable) _
      (λ u last. parse_lines-IsNamed (retain is_written lines) devices last) e

parse_devices-IsNamed :
    (output : Bytes) (devices : List Device)
    → parse_devices output ≡ ok devices
    → All IsNamed devices
unfolding parse_devices
parse_devices-IsNamed output devices e = parse_devices_lines-IsNamed (split_lines output) devices e

-- A device that is selected is online and named in the list that was printed, every serial number of which
-- is valid; it is the one that was asked for, or the only one.
pub select_device_sound :
    (output requested : Option Bytes) (selected : Bytes)
    → select_device output requested ≡ ok selected
    → (text : Bytes) × (output ≡ some text)
      × (devices : List Device) × (parse_devices text ≡ ok devices)
      × All IsNamed devices
      × IsOnlineIn devices selected
      × Answers devices requested selected
unfolding select_device
select_device_sound output requested selected e =
    ok_step _ (ok_or output unavailable) _
      (λ text printed. ok_step _ (parse_devices text) _ (λ devices parsed last.
        let (found, asked) = choose_device_sound devices requested selected last in
        (
          text,
          ok_or-ok output unavailable text printed,
          devices,
          parsed,
          parse_devices-IsNamed text devices parsed,
          found,
          asked,
        )))
      e
