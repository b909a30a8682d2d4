-- ===== src/Pairing/Lines.antt =====
-- crates/desktop/src/pairing.rs: `decode_identity_stub_text`. Texts are their UTF-8 bytes.
pub mod Text
pub mod RoundTrip
use age_plugin_phone.Base.{
  ℕ, Bool, true, false, not, ◌&&◌, ◌||◌, List, [], ◌∷◌, map, Bytes, bytes_eq, retain, leb, ◌==◌,
  if◌then◌else◌, Result, ok, err, ok_or, ensure, ◌>>=◌, ◌>>◌,
}
use mathlib.Core.List.{reverse}
use age_plugin_phone.Cbor.{Cbor}
use age_plugin_phone.Crypto.{Crypto}
use age_plugin_phone.Recipient.{to_ascii_lowercase}
use age_plugin_phone.Pairing.{identity_hrp, PairingError, malformed_stub, PublicIdentityStub}
use age_plugin_phone.Pairing.Stub.{decode_stub, plugin_identity}

-- Put a byte in front of the first line.
abbrev pub onto_first : ℕ → List Bytes → List Bytes
onto_first b [] = (b ∷ []) ∷ []
onto_first b (line ∷ lines) = (b ∷ line) ∷ lines

-- `split_inclusive('\n')`, without the newlines: nothing stands behind the last one.
unfoldable pub split_lines : Bytes → List Bytes
split_lines [] = []
split_lines (b ∷ text) =
    let rest = split_lines text in if b == 10 then [] ∷ rest else onto_first b rest

-- ASCII white space of `char::is_whitespace`.
abbrev pub is_space : ℕ → Bool
is_space b = (leb 9 b && leb b 13) || b == 32

-- The white space of two and of three bytes, read forwards.
abbrev pub is_space_two : ℕ → ℕ → Bool
is_space_two a b = a == 194 && (b == 133 || b == 160)

abbrev pub is_space_three : ℕ → ℕ → ℕ → Bool
is_space_three a b c =
    (a == 225 && (b == 154 && c == 128))
    || ((a == 226
          && ((b == 128 && ((leb 128 c && leb c 138) || (c == 168 || (c == 169 || c == 175))))
              || (b == 129 && c == 159)))
        || (a == 227 && (b == 128 && c == 128)))

-- `trim_start`
unfoldable pub trim_start : Bytes → Bytes
trim_start [] = []
trim_start (a ∷ []) = if is_space a then [] else a ∷ []
trim_start (a ∷ b ∷ []) = elim (is_space a) [
  | true ↦ trim_start (b ∷ [])
  | false ↦ if is_space_two a b then [] else a ∷ b ∷ []
]
trim_start (a ∷ b ∷ c ∷ text) = elim (is_space a) [
  | true ↦ trim_start (b ∷ c ∷ text)
  | false ↦ elim (is_space_two a b) [
    | true ↦ trim_start (c ∷ text)
    | false ↦ elim (is_space_three a b c) [ true ↦ trim_start text | false ↦ a ∷ b ∷ c ∷ text ]
  ]
]

-- `trim_end`, on the reversed text.
unfoldable pub trim_reversed : Bytes → Bytes
trim_reversed [] = []
trim_reversed (a ∷ []) = if is_space a then [] else a ∷ []
trim_reversed (b ∷ a ∷ []) = elim (is_space b) [
  | true ↦ trim_reversed (a ∷ [])
  | false ↦ if is_space_two a b then [] else b ∷ a ∷ []
]
trim_reversed (c ∷ b ∷ a ∷ text) = elim (is_space c) [
  | true ↦ trim_reversed (b ∷ a ∷ text)
  | false ↦ elim (is_space_two b c) [
    | true ↦ trim_reversed (a ∷ text)
    | false ↦ elim (is_space_three a b c) [ true ↦ trim_reversed text | false ↦ c ∷ b ∷ a ∷ text ]
  ]
]

-- `str::trim`, which also takes the carriage return that `lines` strips.
unfoldable pub trim : Bytes → Bytes
unfolding trim_start trim_reversed
trim text = reverse (trim_reversed (reverse (trim_start text)))

-- A line that is neither empty nor a comment: 35 is `#`.
unfoldable pub is_identity_line : Bytes → Bool
is_identity_line [] = false
is_identity_line (b ∷ line) = not (b == 35)

unfoldable pub identity_lines : Bytes → List Bytes
unfolding split_lines trim is_identity_line
identity_lines text = retain is_identity_line (map trim (split_lines text))

-- The one line that is left.
unfoldable pub only_line : List Bytes → Result PairingError Bytes
only_line (line ∷ []) = ok line
only_line _ = err malformed_stub

module _ (c : Cbor) (x : Crypto) where
  unfoldable pub decode_identity_stub_text : Bytes → Result PairingError PublicIdentityStub
  unfolding identity_lines only_line
  decode_identity_stub_text text = do
    identity ← only_line (identity_lines text)
    (hrp, groups, bech32) ← ok_or (x.bech32_decode (to_ascii_lowercase identity)) malformed_stub
    ensure (bytes_eq hrp identity_hrp && bech32) malformed_stub
    bytes ← ok_or (x.from_base32 groups) malformed_stub
    stub ← decode_stub c x bytes
    again ← plugin_identity c x stub
    ensure (bytes_eq again identity) malformed_stub
    ok stub
