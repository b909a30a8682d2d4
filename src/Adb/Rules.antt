-- ===== src/Adb/Rules.antt =====
-- crates/desktop/src/adb.rs: the rules of the phone that the desktop leaves alone.
use age_plugin_phone.Base.{
  ◌≡◌, refl, sym, ap, ◌∙◌, ok_injective, false, ◌&&◌, Option, some, List, [], ◌∷◌, Bytes, bytes_eq,
  ok, ensure, refuse-ok, ok_step, ok_after, ok_or, ok_or-ok, All, retain,
}
use age_plugin_phone.Pairing.Lines.{split_lines}
use age_plugin_phone.Transport.Policy.{valid_serial}
use age_plugin_phone.Adb.Selection.{IsOnlineIn, Answers, IsNamed, select_device_sound}
use age_plugin_phone.Adb.{
  Device, parse_devices, select_device, preflight_device, android_reverse_spec, unavailable,
  reverse_rule_exists, split_whitespace, is_written, rule_of, reject_rules, reject_existing_rule,
}

-- A line of three fields whose second is not the socket.
pub record IsOther (reverse_spec line : Bytes) : Type 0 where
  pub transport' : Bytes
  pub phone_spec : Bytes
  pub desktop_spec : Bytes
  pub fields : split_whitespace line ≡ transport' ∷ phone_spec ∷ desktop_spec ∷ []
  pub differs : bytes_eq phone_spec reverse_spec ≡ false

rule_of-IsOther :
    (reverse_spec line : Bytes) (fields : List Bytes)
    → split_whitespace line ≡ fields
    → rule_of reverse_spec fields ≡ ok tt
    → IsOther reverse_spec line
unfolding rule_of
rule_of-IsOther reverse_spec line [] s e = cc
rule_of-IsOther reverse_spec line (a ∷ []) s e = cc
rule_of-IsOther reverse_spec line (a ∷ b ∷ []) s e = cc
rule_of-IsOther reverse_spec line (a ∷ b ∷ c ∷ []) s e =
    ok_after _ (ensure (valid_serial a && (valid_serial b && valid_serial c)) unavailable) _
      (λ u last. record {
        transport' = a;
        phone_spec = b;
        desktop_spec = c;
        fields = s;
        differs = refuse-ok (bytes_eq b reverse_spec) reverse_rule_exists tt last;
      })
      e
rule_of-IsOther reverse_spec line (a ∷ b ∷ c ∷ d ∷ fields) s e = cc

reject_rules-IsOther :
    (reverse_spec : Bytes) (lines : List Bytes)
    → reject_rules reverse_spec lines ≡ ok tt
    → All (IsOther reverse_spec) lines
unfolding reject_rules
reject_rules-IsOther reverse_spec [] e = tt
reject_rules-IsOther reverse_spec (line ∷ lines) e =
    ok_step _ (rule_of reverse_spec (split_whitespace line)) _
      (λ u first last. (
        rule_of-IsOther reverse_spec line (split_whitespace line) refl first,
        reject_rules-IsOther reverse_spec lines last,
      ))
      e

-- A listing that is let through has three fields in every line that is not blank, and no rule of it is
-- for the socket.
pub reject_existing_rule-IsOther :
    (output : Option Bytes) (reverse_spec : Bytes)
    → reject_existing_rule output reverse_spec ≡ ok tt
    → (text : Bytes) × (output ≡ some text)
      × All (IsOther reverse_spec) (retain is_written (split_lines text))
unfolding reject_existing_rule
reject_existing_rule-IsOther output reverse_spec e =
    ok_step _ (ok_or output unavailable) _
      (λ text printed last. (
        text,
        ok_or-ok output unavailable text printed,
        reject_rules-IsOther reverse_spec (retain is_written (split_lines text)) last,
      ))
      e

-- A device that passes the check is online and listed in what adb printed, where every serial number is
-- valid; it is the one asked for or, if none was, the only one; and its listing of rules has three fields
-- in every line that is not blank and no rule for the socket of this program.
pub preflight_device_sound :
    (output : Option Bytes) (rules : Bytes → Option Bytes) (requested : Option Bytes)
    (selected : Bytes)
    → preflight_device output rules requested ≡ ok selected
    → ((text : Bytes) × (output ≡ some text)
        × (devices : List Device) × (parse_devices text ≡ ok devices)
        × All IsNamed devices
        × IsOnlineIn devices selected
        × Answers devices requested selected)
      × ((listing : Bytes) × (rules selected ≡ some listing)
          × All (IsOther android_reverse_spec) (retain is_written (split_lines listing)))
unfolding preflight_device
preflight_device_sound output rules requested selected e =
    ok_step _ (select_device output requested) _
      (λ serial chosen.
        ok_step _ (reject_existing_rule (rules serial) android_reverse_spec) _ (λ u passed last.
          let same = ok_injective serial selected (ok serial) refl last in
          (
            select_device_sound output requested selected (chosen ∙ ap (λ b. ok b) same),
            reject_existing_rule-IsOther (rules selected) android_reverse_spec
                (sym (ap (λ b. reject_existing_rule (rules b) android_reverse_spec) same) ∙ passed),
          )))
      e
