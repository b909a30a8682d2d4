-- ===== src/Pairing/Lines/Text.antt =====
-- Lines, trimming and letter case of the texts in crates/desktop/src/pairing.rs.
use age_plugin_phone.Base.{
  ℕ, ◌+◌, ◌-◌, ◌≡◌, refl, sym, ap, ◌∙◌, Bool, true, false, not, ◌&&◌, all, [], ◌∷◌, ◌++◌, arith,
  Bytes, leb, ◌==◌, if◌then◌else◌, &&-parts,
}
use mathlib.Core.List.{reverse, reverse_aux, append-nil}
use age_plugin_phone.Crypto.{is_lower_text}
use age_plugin_phone.Recipient.{to_ascii_lowercase}
use age_plugin_phone.Pairing.{to_ascii_uppercase}
use age_plugin_phone.Pairing.Lines.{split_lines, trim_start, trim_reversed, trim}

abbrev pub is_printable : ℕ → Bool
is_printable b = leb 33 b && leb b 126

-- A line, its newline and what follows.
pub split_lines_lem :
    (line text : Bytes)
    → all (λ b. not (b == 10)) line ≡ true
    → split_lines (line ++ (10 ∷ text)) ≡ line ∷ split_lines text
unfolding split_lines
split_lines_lem [] text e = refl
split_lines_lem (b ∷ line) text e =
    let (here, there) = &&-parts (not (b == 10)) _ e in
    let no : (b == 10) ≡ false = ground arith in rw (no, split_lines_lem line text there) refl

trim_start_lem : (a : ℕ) (text : Bytes) → is_printable a ≡ true → trim_start (a ∷ text) ≡ a ∷ text
unfolding trim_start
trim_start_lem a [] e = ground arith
trim_start_lem a (b ∷ []) e = ground arith
trim_start_lem a (b ∷ c ∷ text) e = ground arith

trim_reversed_lem :
    (a : ℕ) (text : Bytes) → is_printable a ≡ true → trim_reversed (a ∷ text) ≡ a ∷ text
unfolding trim_reversed
trim_reversed_lem a [] e = ground arith
trim_reversed_lem a (b ∷ []) e = ground arith
trim_reversed_lem a (b ∷ c ∷ text) e = ground arith

reverse_aux_snoc :
    (xs acc : Bytes) (z : ℕ) → reverse_aux (xs ++ (z ∷ [])) acc ≡ z ∷ reverse_aux xs acc
reverse_aux_snoc [] acc z = refl
reverse_aux_snoc (x ∷ xs) acc z = reverse_aux_snoc xs (x ∷ acc) z

reverse_aux_twice :
    (xs acc back : Bytes) → reverse_aux (reverse_aux xs acc) back ≡ reverse_aux acc (xs ++ back)
reverse_aux_twice [] acc back = refl
reverse_aux_twice (x ∷ xs) acc back = reverse_aux_twice xs (x ∷ acc) back

-- A line that begins and ends with printable characters is not trimmed.
pub trim_lem :
    (a z : ℕ) (middle : Bytes)
    → is_printable a ≡ true
    → is_printable z ≡ true
    → trim (a ∷ (middle ++ (z ∷ []))) ≡ a ∷ (middle ++ (z ∷ []))
unfolding trim
trim_lem a z middle e f =
    let line = a ∷ (middle ++ (z ∷ [])) in
    let turned : reverse line ≡ z ∷ reverse (a ∷ middle) = reverse_aux_snoc (a ∷ middle) [] z in
    rw
      (
        trim_start_lem a (middle ++ (z ∷ [])) e,
        turned,
        trim_reversed_lem z (reverse (a ∷ middle)) f,
      )
      (ap (λ back. reverse back) (sym turned) ∙ (reverse_aux_twice line [] [] ∙ append-nil line))

lower_back :
    (b : ℕ)
    → is_lower_text b ≡ true
    → (let u = if leb 97 b && leb b 122 then b - 32 else b in
        if leb 65 u && leb u 90 then u + 32 else u)
      ≡ b
lower_back b e = ground arith

upper_printable_head :
    (b : ℕ)
    → is_lower_text b ≡ true
    → is_printable (if leb 97 b && leb b 122 then b - 32 else b) ≡ true
upper_printable_head b e = ground arith

-- A text is what it was before its letters were raised.
pub lower-upper :
    (text : Bytes)
    → all is_lower_text text ≡ true
    → to_ascii_lowercase (to_ascii_uppercase text) ≡ text
unfolding to_ascii_lowercase to_ascii_uppercase
lower-upper [] e = refl
lower-upper (b ∷ text) e =
    let (here, there) = &&-parts (is_lower_text b) _ e in
    rw (lower_back b here, lower-upper text there) refl

pub upper_printable :
    (text : Bytes)
    → all is_lower_text text ≡ true
    → all is_printable (to_ascii_uppercase text) ≡ true
unfolding to_ascii_uppercase
upper_printable [] e = refl
upper_printable (b ∷ text) e =
    let (here, there) = &&-parts (is_lower_text b) _ e in
    rw (upper_printable_head b here, upper_printable text there) refl
