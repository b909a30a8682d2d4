-- ===== src/Pairing/Lines/RoundTrip.antt =====
-- crates/desktop/src/pairing.rs: an identity file is read back as the stub that it was written for.
use age_plugin_phone.Base.{
  ℕ, ◌≡◌, refl, sym, ap, ◌∙◌, Bool, true, false, not, all, some, List, [], ◌∷◌, ◌++◌, map, arith,
  Bytes, codes, bytes_eq_refl, ◌==◌, ok, ok_or, ok_or-ok, ok_injective, ok_step, ok_after, &&-parts,
  retain,
}
use mathlib.Core.Path.{subst}
use mathlib.Core.List.{append_assoc}
use age_plugin_phone.Cbor.{Cbor}
use age_plugin_phone.Crypto.{Crypto, is_lower_text, IsBech32}
use age_plugin_phone.Recipient.{
  parse_recipient, public_key_bytes, recipient_hrp, recipient_encoding, plugin_bytes,
  paired_to_string, to_ascii_lowercase,
}
use age_plugin_phone.Recipient.Stanza.{map_err, map_err-ok}
use age_plugin_phone.Recipient.Tag.{tag_hrp, tag_recipient}
use age_plugin_phone.Pairing.{
  identity_hrp, malformed_stub, stub_encoding, RecipientType, phone, tag, PublicIdentityStub,
  to_ascii_uppercase,
}
use age_plugin_phone.Pairing.Stub.{
  encode_stub, decode_stub, paired_recipient, phone_recipient, stub_tag_recipient, recipient_for,
  plugin_identity, identity_file_for,
}
use age_plugin_phone.Pairing.Lines.{
  split_lines, trim, trim_start, trim_reversed, is_identity_line, identity_lines, only_line,
  decode_identity_stub_text,
}
use age_plugin_phone.Pairing.Lines.Text.{
  is_printable, split_lines_lem, trim_lem, lower-upper, upper_printable,
}

all_imp :
    (p q : ℕ → Bool) (xs : Bytes)
    → ((b : ℕ) → p b ≡ true → q b ≡ true)
    → all p xs ≡ true
    → all q xs ≡ true
all_imp p q [] f e = refl
all_imp p q (x ∷ xs) f e =
    let (here, there) = &&-parts (p x) _ e in rw (f x here, all_imp p q xs f there) refl

-- The last character of a text.
snoc :
    (p : ℕ → Bool) (b : ℕ) (text : Bytes)
    → all p (b ∷ text) ≡ true
    → (middle : Bytes) × (z : ℕ) × (b ∷ text ≡ middle ++ (z ∷ [])) × (p z ≡ true)
snoc p b [] e = ([], b, refl, (&&-parts (p b) _ e).0)
snoc p b (c ∷ text) e =
    let (middle, z, same, last) = snoc p c text (&&-parts (p b) _ e).1 in
    (b ∷ middle, z, ap (λ t. b ∷ t) same, last)

-- A line with a printable character in front of a printable text is not trimmed.
trim_line :
    (a : ℕ) (front : Bytes) (b : ℕ) (text : Bytes)
    → is_printable a ≡ true
    → all is_printable (b ∷ text) ≡ true
    → trim (a ∷ (front ++ (b ∷ text))) ≡ a ∷ (front ++ (b ∷ text))
trim_line a front b text e f =
    let (middle, z, same, last) = snoc is_printable b text f in
    let whole : front ++ (b ∷ text) ≡ (front ++ middle) ++ (z ∷ []) =
      ap (λ t. front ++ t) same ∙ sym (append_assoc front middle (z ∷ [])) in
    subst (λ t. trim (a ∷ t) ≡ a ∷ t) (sym whole) (trim_lem a z (front ++ middle) e last)

lower_printable : (b : ℕ) → is_lower_text b ≡ true → is_printable b ≡ true
lower_printable b e = (&&-parts (is_printable b) _ e).0

lower_no_newline : (b : ℕ) → is_lower_text b ≡ true → not (b == 10) ≡ true
lower_no_newline b e = ground arith

printable_no_newline : (b : ℕ) → is_printable b ≡ true → not (b == 10) ≡ true
printable_no_newline b e = ground arith

-- The second line of the file.
abbrev note : Bytes
note = codes "# public age-plugin-phone identity stub"

trim-note : trim note ≡ note
unfolding trim trim_start trim_reversed
trim-note = refl

split_empty : split_lines [] ≡ []
unfolding split_lines
split_empty = refl

retain_drop :
    (keep : Bytes → Bool) (a : Bytes) (rest : List Bytes)
    → keep a ≡ false
    → retain keep (a ∷ rest) ≡ retain keep rest
retain_drop keep a rest e = ground (arith, e)

retain_keep :
    (keep : Bytes → Bool) (a : Bytes) (rest : List Bytes)
    → keep a ≡ true
    → retain keep (a ∷ rest) ≡ a ∷ retain keep rest
retain_keep keep a rest e = ground (arith, e)

-- Three lines of which only the last is no comment.
kept :
    (head middle last : Bytes)
    → trim head ≡ head
    → trim middle ≡ middle
    → trim last ≡ last
    → is_identity_line head ≡ false
    → is_identity_line middle ≡ false
    → is_identity_line last ≡ true
    → retain is_identity_line (map trim (head ∷ middle ∷ last ∷ [])) ≡ last ∷ []
kept head middle last t1 t2 t3 i1 i2 i3 =
    rw (t1, t2, t3)
      (retain_drop is_identity_line head (middle ∷ last ∷ []) i1
        ∙ (retain_drop is_identity_line middle (last ∷ []) i2
            ∙ retain_keep is_identity_line last [] i3))

is_comment : (text : Bytes) → is_identity_line (35 ∷ text) ≡ false
unfolding is_identity_line
is_comment text = refl

is_no_comment : (a : ℕ) (text : Bytes) → not (a == 35) ≡ true → is_identity_line (a ∷ text) ≡ true
unfolding is_identity_line
is_no_comment a text e = e

-- The lines of a file with a recipient and an identity.
identity_lines_lem :
    (b : ℕ) (recipient : Bytes) (a d : ℕ) (identity : Bytes)
    → all is_lower_text (b ∷ recipient) ≡ true
    → not (a == 35) ≡ true
    → all is_printable (a ∷ d ∷ identity) ≡ true
    → identity_lines (
        codes "# recipient: "
        ++ ((b ∷ recipient) ++ (10 ∷ (note ++ (10 ∷ ((a ∷ d ∷ identity) ++ (10 ∷ [])))))))
      ≡ (a ∷ d ∷ identity) ∷ []
unfolding identity_lines
identity_lines_lem b recipient a d identity e first f =
    let head = codes "# recipient: " ++ (b ∷ recipient) in
    let last = a ∷ d ∷ identity in
    let l1 =
      split_lines_lem head (note ++ (10 ∷ (last ++ (10 ∷ []))))
        (all_imp is_lower_text (λ c. not (c == 10)) (b ∷ recipient) lower_no_newline e) in
    let l2 = split_lines_lem note (last ++ (10 ∷ [])) refl in
    let l3 =
      split_lines_lem last []
        (all_imp is_printable (λ c. not (c == 10)) last printable_no_newline f) in
    let lines =
      l1 ∙ ap (λ r. head ∷ r) (l2 ∙ ap (λ r. note ∷ r) (l3 ∙ ap (λ r. last ∷ r) split_empty)) in
    let (here, there) = &&-parts (is_printable a) _ f in
    ap (λ ls. retain is_identity_line (map trim ls)) lines
    ∙ kept head note last
        (trim_line 35 (codes " recipient: ") b recipient refl
          (all_imp is_lower_text is_printable (b ∷ recipient) lower_printable e))
        trim-note (trim_line a [] d identity here there)
        (is_comment (codes " recipient: " ++ (b ∷ recipient)))
        (is_comment (codes " public age-plugin-phone identity stub"))
        (is_no_comment a (d ∷ identity) first)

-- The text of an identity file.
abbrev file_text : Bytes → Bytes → Bytes
file_text recipient identity =
    codes "# recipient: " ++ (recipient ++ (10 ∷ (note ++ (10 ∷ (identity ++ (10 ∷ []))))))

file_text_lines :
    (recipient identity : Bytes) (d : ℕ) (rest more : Bytes)
    → recipient ≡ d ∷ rest
    → identity ≡ 65 ∷ 71 ∷ more
    → all is_lower_text recipient ≡ true
    → all is_printable identity ≡ true
    → identity_lines (file_text recipient identity) ≡ identity ∷ []
file_text_lines recipient identity d rest more e f lower printable =
    let lower' = subst (λ r. all is_lower_text r ≡ true) e lower in
    let printable' = subst (λ i. all is_printable i ≡ true) f printable in
    subst (λ r. identity_lines (file_text r identity) ≡ identity ∷ []) (sym e)
      (subst (λ i. identity_lines (file_text (d ∷ rest) i) ≡ i ∷ []) (sym f)
        (identity_lines_lem d rest 65 71 more lower' refl printable'))

upper_shape :
    (more : Bytes) → (t : Bytes) × (to_ascii_uppercase (identity_hrp ++ more) ≡ 65 ∷ 71 ∷ t)
unfolding to_ascii_uppercase
upper_shape more = (_, refl)

module _ (c : Cbor) (x : Crypto) (b : IsBech32 x) where
  -- What `recipient_for` prints is a text in lower case.
  abbrev IsText : Bytes → Type 0
  IsText r = (all is_lower_text r ≡ true) × (d : ℕ) × (rest : Bytes) × (r ≡ d ∷ rest)

  bech32_IsText :
      (hrp : Bytes) (d : ℕ) (more bs r : Bytes)
      → hrp ≡ d ∷ more
      → all is_lower_text hrp ≡ true
      → x.bech32_encode hrp bs ≡ some r
      → IsText r
  bech32_IsText hrp d more bs r e lower f =
      let (text, rest, same) = b.text_law hrp bs r lower f in
      (text, d, more ++ rest, same ∙ ap (λ t. t ++ rest) e)

  recipient_for-IsText :
      (kind : RecipientType) (v : PublicIdentityStub) (r : Bytes)
      → recipient_for c x kind v ≡ ok r
      → IsText r
  unfolding recipient_for phone_recipient stub_tag_recipient paired_to_string tag_recipient
  recipient_for-IsText phone v r e =
      ok_after (IsText r) (paired_recipient c x v) _
        (λ paired f. bech32_IsText recipient_hrp _ _ (plugin_bytes x paired) r refl refl (
          ok_or-ok (x.bech32_encode recipient_hrp (plugin_bytes x paired)) recipient_encoding r (
            map_err-ok
              (ok_or (x.bech32_encode recipient_hrp (plugin_bytes x paired)) recipient_encoding)
              stub_encoding r f)))
        e
  recipient_for-IsText tag v r e =
      ok_after (IsText r) (map_err (parse_recipient x v.recipient) malformed_stub) _
        (λ key f. bech32_IsText tag_hrp _ _ (public_key_bytes x key) r refl refl (
          ok_or-ok (x.bech32_encode tag_hrp (public_key_bytes x key)) recipient_encoding r (
            map_err-ok (ok_or (x.bech32_encode tag_hrp (public_key_bytes x key)) recipient_encoding)
              stub_encoding r f)))
        e

  plugin_identity_ok :
      (v : PublicIdentityStub) (identity : Bytes)
      → plugin_identity c x v ≡ ok identity
      → (text : Bytes) × (x.bech32_encode identity_hrp (encode_stub c v) ≡ some text)
        × (identity ≡ to_ascii_uppercase text)
  unfolding plugin_identity
  plugin_identity_ok v identity =
      let P : Type 0 =
        (text : Bytes) × (x.bech32_encode identity_hrp (encode_stub c v) ≡ some text)
        × (identity ≡ to_ascii_uppercase text) in
      ok_step P (ok_or (x.bech32_encode identity_hrp (encode_stub c v)) stub_encoding) _
        (λ text e f. (
          text,
          ok_or-ok (x.bech32_encode identity_hrp (encode_stub c v)) stub_encoding text e,
          sym (
              ok_injective (to_ascii_uppercase text) identity (ok (to_ascii_uppercase text)) refl
                f),
        ))

  -- Reading the identity once it is found.
  decode_identity_lem :
      (file identity text : Bytes) (groups : List ℕ) (v : PublicIdentityStub)
      → identity_lines file ≡ identity ∷ []
      → to_ascii_lowercase identity ≡ text
      → x.bech32_decode text ≡ some (identity_hrp, groups, true)
      → x.from_base32 groups ≡ some (encode_stub c v)
      → decode_stub c x (encode_stub c v) ≡ ok v
      → plugin_identity c x v ≡ ok identity
      → decode_identity_stub_text c x file ≡ ok v
  unfolding decode_identity_stub_text only_line
  decode_identity_lem file identity text groups v e1 e2 e3 e4 e5 e6 =
      rw (e1, e2, e3, bytes_eq_refl identity_hrp, e4, e5, e6, bytes_eq_refl identity) refl

  -- The lines of the file of a stub.
  file_lines :
      (kind : RecipientType) (v : PublicIdentityStub) (file : Bytes)
      → identity_file_for c x kind v ≡ ok file
      → (identity : Bytes) × (plugin_identity c x v ≡ ok identity)
        × (identity_lines file ≡ identity ∷ [])
  unfolding identity_file_for
  file_lines kind v file =
      let P : Type 0 =
        (identity : Bytes) × (plugin_identity c x v ≡ ok identity)
        × (identity_lines file ≡ identity ∷ []) in
      ok_step P (recipient_for c x kind v) _ (λ recipient e.
        ok_step P (plugin_identity c x v) _ (λ identity e' f.
          let (lower, d, rest, same) = recipient_for-IsText kind v recipient e in
          let (text, encoded, raised) = plugin_identity_ok v identity e' in
          let (text_lower, more, starts) =
            b.text_law identity_hrp (encode_stub c v) text refl encoded in
          let (t, shape) = upper_shape more in
          let shaped : identity ≡ 65 ∷ 71 ∷ t = raised ∙ (ap to_ascii_uppercase starts ∙ shape) in
          let printable : all is_printable identity ≡ true =
            subst (λ i. all is_printable i ≡ true) (sym raised) (upper_printable text text_lower) in
          (
            identity,
            e',
            subst (λ p. identity_lines p ≡ identity ∷ [])
                (ok_injective (file_text recipient identity) file
                  (ok (file_text recipient identity)) refl f)
                (file_text_lines recipient identity d rest t same shaped lower printable),
          )))

  -- The identity file of a stub, for whichever kind of recipient, is read back as the stub, if the
  -- stub is read back from its bytes.
  pub decode_identity_stub_text-identity_file_for :
      (kind : RecipientType) (v : PublicIdentityStub) (file : Bytes)
      → decode_stub c x (encode_stub c v) ≡ ok v
      → identity_file_for c x kind v ≡ ok file
      → decode_identity_stub_text c x file ≡ ok v
  decode_identity_stub_text-identity_file_for kind v file readable e =
      let (identity, printed, lines) = file_lines kind v file e in
      let (text, encoded, raised) = plugin_identity_ok v identity printed in
      let (text_lower, _, _) = b.text_law identity_hrp (encode_stub c v) text refl encoded in
      let (groups, read, bytes) = b.read_law identity_hrp (encode_stub c v) text refl encoded in
      decode_identity_lem file identity text groups v lines
        (ap to_ascii_lowercase raised ∙ lower-upper text text_lower) read bytes readable printed
