-- ===== src/Tests/Bech32.antt =====
-- The Bech32 of Tests/Keys meets its laws, and an identity file at a concrete stub.
use age_plugin_phone.Base.{
  ℕ, zero, suc, ◌+◌, ◌≡◌, refl, sym, ap, ◌∙◌, Bool, true, all, Option, some, none, List, [], ◌∷◌,
  ◌++◌, arith, Bytes, replicate, bytes_eq, ok, value_of, &&-parts,
}
use mathlib.Core.Path.{subst}
use age_plugin_phone.Crypto.{is_lower_text, IsBech32}
use age_plugin_phone.Pairing.{phone}
use age_plugin_phone.Pairing.Stub.{
  identity_file_for, recipient_for, phone_recipient, paired_recipient, plugin_identity,
}
use age_plugin_phone.Pairing.Session.{stub_from_response}
use age_plugin_phone.Recipient.{
  paired_to_string, from_public_fields, from_public_key_bytes, has_compressed_tag, public_key_bytes,
}
use age_plugin_phone.Pairing.Lines.{decode_identity_stub_text}
use age_plugin_phone.Pairing.Lines.RoundTrip.{decode_identity_stub_text-identity_file_for}
use age_plugin_phone.Tests.Rfc8949.{rfc8949}
use age_plugin_phone.Tests.Pairings.{confirmed_stub, confirmed_readable, parses_again}
use age_plugin_phone.Tests.Keys.{keyed, find_key, tally, untally, cut, bech32_of}

all_append :
    (p : ℕ → Bool) (xs ys : Bytes) → all p xs ≡ true → all p ys ≡ true → all p (xs ++ ys) ≡ true
all_append p [] ys e f = f
all_append p (x ∷ xs) ys e f =
    let (here, there) = &&-parts (p x) _ e in rw (here, all_append p xs ys there f) refl

replicate_lower : (n : ℕ) → all is_lower_text (replicate n 99) ≡ true
replicate_lower zero = refl
replicate_lower (suc n) = replicate_lower n

tally_lower : (bs : Bytes) → all is_lower_text (tally bs) ≡ true
unfolding tally
tally_lower [] = refl
tally_lower (b ∷ bs) =
    all_append is_lower_text (replicate b 99) (113 ∷ tally bs) (replicate_lower b) (tally_lower bs)

untally_run :
    (b n : ℕ) (text bs : Bytes)
    → untally 0 text ≡ some bs
    → untally n (replicate b 99 ++ (113 ∷ text)) ≡ some ((n + b) ∷ bs)
unfolding untally
untally_run zero n text bs e =
    let same : n ≡ n + 0 = omega arith in rw e (ap (λ k. some (k ∷ bs)) same)
untally_run (suc b) n text bs e =
    let same : suc n + b ≡ n + suc b = omega arith in
    untally_run b (suc n) text bs e ∙ ap (λ k. some (k ∷ bs)) same

untally-tally : (bs : Bytes) → untally 0 (tally bs) ≡ some bs
unfolding tally untally
untally-tally [] = refl
untally-tally (b ∷ bs) =
    let same : 0 + b ≡ b = omega arith in
    untally_run b 0 (tally bs) bs (untally-tally bs) ∙ ap (λ k. some (k ∷ bs)) same

cut_run : (n : ℕ) (text : Bytes) → cut text ≡ none → cut (replicate n 99 ++ (113 ∷ text)) ≡ none
unfolding cut
cut_run zero text e = rw e refl
cut_run (suc n) text e = rw (cut_run n text e) refl

cut-tally : (bs : Bytes) → cut (tally bs) ≡ none
unfolding tally cut
cut-tally [] = refl
cut-tally (b ∷ bs) = cut_run b (tally bs) (cut-tally bs)

cut_append : (hrp text : Bytes) → cut text ≡ none → cut (hrp ++ (49 ∷ text)) ≡ some (hrp, text)
unfolding cut
cut_append [] text e = rw e refl
cut_append (h ∷ hrp) text e = rw (cut_append hrp text e) refl

some_text : (a b : Bytes) → ◌≡◌ {A = Option Bytes} (some a) (some b) → a ≡ b
some_text a b e = ap (λ o. elim o as (λ o'. Bytes) [ none ↦ a | some t ↦ t ]) e

read_back :
    (hrp bs : Bytes)
    → (groups : List ℕ) × (keyed.bech32_decode (hrp ++ (49 ∷ tally bs)) ≡ some (hrp, groups, true))
      × (keyed.from_base32 groups ≡ some bs)
read_back hrp bs = (
  bs,
  ap
        (λ o. elim o as (λ o'. Option (Bytes × List ℕ × Bool)) [
          | none ↦ none
          | some parts ↦ bech32_of parts
        ])
        (cut_append hrp (tally bs) (cut-tally bs))
      ∙ ap
          (λ o. elim o as (λ o'. Option (Bytes × List ℕ × Bool)) [
            | none ↦ none
            | some ds ↦ some (hrp, ds, true)
          ])
          (untally-tally bs),
  refl,
)

keyed-IsBech32 : IsBech32 keyed
keyed-IsBech32 = record {
  text_law = λ hrp bs text lower e.
      (let same = some_text (hrp ++ (49 ∷ tally bs)) text e in
        (
          subst (λ t. all is_lower_text t ≡ true) same
              (all_append is_lower_text hrp (49 ∷ tally bs) lower (tally_lower bs)),
          49 ∷ tally bs,
          sym same,
        ));
  read_law = λ hrp bs text lower e.
      (let same = some_text (hrp ++ (49 ∷ tally bs)) text e in
        subst
          (λ t.
            (groups : List ℕ) × (keyed.bech32_decode t ≡ some (hrp, groups, true))
            × (keyed.from_base32 groups ≡ some bs))
          same (read_back hrp bs));
}

-- The file of the stub that a concrete pairing confirmed.
abbrev confirmed_file : Bytes
confirmed_file = value_of (identity_file_for rfc8949 keyed phone confirmed_stub) []

file_written : identity_file_for rfc8949 keyed phone confirmed_stub ≡ ok confirmed_file
unfolding identity_file_for recipient_for phone_recipient paired_recipient plugin_identity
    paired_to_string from_public_fields from_public_key_bytes has_compressed_tag public_key_bytes
    stub_from_response find_key bytes_eq
file_written = rw parses_again refl

decode_identity_stub_text-identity_file_for_example :
    decode_identity_stub_text rfc8949 keyed confirmed_file ≡ ok confirmed_stub
decode_identity_stub_text-identity_file_for_example =
    decode_identity_stub_text-identity_file_for rfc8949 keyed keyed-IsBech32 phone confirmed_stub
      confirmed_file confirmed_readable file_written
