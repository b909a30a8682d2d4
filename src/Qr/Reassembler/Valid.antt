-- ===== src/Qr/Reassembler/Valid.antt =====
-- The invariant of `QrReassembler` of crates/core/src/protocol/qr.rs: the counts agree with the slots,
-- so that every index that is pushed is in bounds.
use age_plugin_phone.Base.{
  ℕ, zero, suc, ◌+◌, ◌^◌, ◌≤◌, ◌<◌, ◌≡◌, refl, sym, ap, ◌∙◌, Bool, true, false, not, ◌&&◌, ◌||◌,
  Option, some, none, List, [], ◌∷◌, arith, Bytes, bytes_eq, length, length-set, set, replicate,
  ltb, leb, ◌==◌, ok, ok_or, ensure, refuse, Bool-cases, Result-cases, inl, inr, &&-parts,
  ensure-ok, ok_injective, ok_after, Option-cases, >>=-eq-ok, any, drop, take,
}
use mathlib.Core.Path.{subst}
use age_plugin_phone.Cbor.{Cbor}
use age_plugin_phone.Crypto.{Crypto}
use age_plugin_phone.Qr.{QrError, malformed_frame, Frame, text_prefix}
use age_plugin_phone.Qr.Frames.{
  in_bounds, check_frame, decode_cbor, decode_text, encode_cbor, fixed_bytes,
}
use age_plugin_phone.Qr.Reassembler.{
  ActiveAssembly, QrReassembler, start_assembly, slot_at, stopped, same_transfer, finish_push,
  place, push_frame, assembly_for, push,
}

-- How many slots are filled, and with how many bytes.
unfoldable pub filled : List (Option Bytes) → ℕ
filled [] = 0
filled (none ∷ slots) = filled slots
filled (some chunk ∷ slots) = suc (filled slots)

unfoldable pub filled_bytes : List (Option Bytes) → ℕ
filled_bytes [] = 0
filled_bytes (none ∷ slots) = filled_bytes slots
filled_bytes (some chunk ∷ slots) = length chunk + filled_bytes slots

pub record IsAssembly (a : ActiveAssembly) : Type 0 where
  pub slots : length a.chunks ≡ a.count
  pub counted : filled a.chunks ≡ a.received
  pub summed : filled_bytes a.chunks ≡ a.received_bytes
  pub within : a.received_bytes ≤ a.total_len

-- A fragment is missing as long as the assembly is under way, and a poisoned reassembler has none.
abbrev IsUnderWay : QrReassembler → Option ActiveAssembly → Type 0
IsUnderWay r none = Unit
IsUnderWay r (some a) = IsAssembly a × (a.received < a.count) × (r.poisoned ≡ false)

abbrev pub IsValid : QrReassembler → Type 0
IsValid r = IsUnderWay r r.active

filled-set :
    (slots : List (Option Bytes)) (i : ℕ) (chunk : Bytes)
    → slot_at slots i ≡ none
    → i < length slots
    → (filled (set slots i (some chunk)) ≡ filled slots + 1)
      × (filled_bytes (set slots i (some chunk)) ≡ filled_bytes slots + length chunk)
unfolding filled filled_bytes slot_at
filled-set [] i chunk e l = absurd (omega arith)
filled-set (none ∷ slots) zero chunk e l = (omega arith, omega arith)
filled-set (some c ∷ slots) zero chunk e l = cc
filled-set (none ∷ slots) (suc i) chunk e l = filled-set slots i chunk e (omega arith)
filled-set (some c ∷ slots) (suc i) chunk e l =
    let (a, b) = filled-set slots i chunk e (omega arith) in (omega (arith, a), omega (arith, b))

replicate_empty :
    (n : ℕ)
    → (length (replicate {A = Option Bytes} n none) ≡ n)
      × (filled (replicate n none) ≡ 0)
      × (filled_bytes (replicate n none) ≡ 0)
unfolding filled filled_bytes
replicate_empty zero = (refl, refl, refl)
replicate_empty (suc n) = (let (a, b, c) = replicate_empty n in (ap suc a, b, c))

in_bounds-index : (f : Frame) → in_bounds f ≡ true → f.index < f.count
unfolding in_bounds
in_bounds-index f b = ground arith

start-IsAssembly : (f : Frame) (now : ℕ) → IsAssembly (start_assembly f now)
unfolding start_assembly
start-IsAssembly f now =
    let (a, b, c) = replicate_empty f.count in
    record { slots = a; counted = b; summed = c; within = omega arith }

same_transfer-count :
    (f : Frame) (a : ActiveAssembly) → same_transfer f a ≡ true → f.count ≡ a.count
unfolding same_transfer
same_transfer-count f a e = ground arith

module _ (c : Cbor) (x : Crypto) where
  finish_push-IsValid :
      (a : ActiveAssembly) → IsAssembly a → a.received ≤ a.count → IsValid (finish_push c x a).1
  unfolding finish_push
  finish_push-IsValid a v l = ground arith

  -- Whether the bytes of the fragment are too many.
  abbrev is_over : Frame → ActiveAssembly → Bool
  is_over f a =
      leb (2 ^ 64) (a.received_bytes + length f.chunk)
      || ltb a.total_len (a.received_bytes + length f.chunk)

  module _ (f : Frame) (a : ActiveAssembly) where
    place_over : slot_at a.chunks f.index ≡ none → is_over f a ≡ true → (place c x f a).1 ≡ stopped
    unfolding place
    place_over n y = ground arith

    place_added :
        slot_at a.chunks f.index ≡ none
        → is_over f a ≡ false
        → (place c x f a).1
          ≡ (finish_push c x (record a {
            received_bytes = a.received_bytes + length f.chunk;
            chunks = set a.chunks f.index (some f.chunk);
            received = a.received + 1;
          })).1
    unfolding place
    place_added n m = ground arith

    place_again :
        (existing : Bytes)
        → slot_at a.chunks f.index ≡ some existing
        → bytes_eq existing f.chunk ≡ true
        → (place c x f a).1 ≡ (finish_push c x a).1
    unfolding place
    place_again existing e y = ground arith

    place_conflict :
        (existing : Bytes)
        → slot_at a.chunks f.index ≡ some existing
        → bytes_eq existing f.chunk ≡ false
        → (place c x f a).1 ≡ stopped
    unfolding place
    place_conflict existing e m = ground arith

  place-IsValid :
      (f : Frame) (a : ActiveAssembly)
      → IsAssembly a
      → a.received < a.count
      → f.index < a.count
      → IsValid (place c x f a).1
  unfolding place
  place-IsValid f a v l k = elim (Option-cases (slot_at a.chunks f.index)) [
    | inl n ↦
        (let added : ActiveAssembly = record a {
          received_bytes = a.received_bytes + length f.chunk;
          chunks = set a.chunks f.index (some f.chunk);
          received = a.received + 1;
        } in
          let (more, bytes) = filled-set a.chunks f.index f.chunk n (omega (arith, v.slots)) in
          let size = length-set a.chunks f.index (some f.chunk) in
          elim (Bool-cases (
            leb (2 ^ 64) (a.received_bytes + length f.chunk)
            || ltb a.total_len (a.received_bytes + length f.chunk))) [
              | inl y ↦ (let result = place_over f a n y in subst IsValid (sym result) tt)
              | inr m ↦
                  (let result = place_added f a n m in
                    let room : a.received_bytes + length f.chunk ≤ a.total_len = ground arith in
                    subst IsValid (sym result) (
                      finish_push-IsValid added
                        (record {
                          slots = size ∙ v.slots;
                          counted = more ∙ ap (λ (t : ℕ). t + 1) v.counted;
                          summed = bytes ∙ ap (λ (t : ℕ). t + length f.chunk) v.summed;
                          within = room;
                        })
                        (omega arith)))
            ])
    | inr (existing, e) ↦ elim (Bool-cases (bytes_eq existing f.chunk)) [
      | inl y ↦
          (let result = place_again f a existing e y in
            subst IsValid (sym result) (finish_push-IsValid a v (omega arith)))
      | inr m ↦ (let result = place_conflict f a existing e m in subst IsValid (sym result) tt)
    ]
  ]

  push_frame-IsValid :
      (f : Frame) (now : ℕ) (a : ActiveAssembly)
      → IsAssembly a
      → a.received < a.count
      → f.index < f.count
      → IsValid (push_frame c x f now a).1
  unfolding push_frame
  push_frame-IsValid f now a v l k =
      ground (arith, place-IsValid f a v l, same_transfer-count f a, v, l)

  check_frame-index :
      (encoded d : Bytes) (frame f : Frame)
      → check_frame c encoded d frame ≡ ok f
      → f.index < f.count
  unfolding check_frame
  check_frame-index encoded d frame f e =
      let (_, bounds, e1) =
        >>=-eq-ok _ (ensure (length d == 0 && in_bounds frame) malformed_frame) e in
      let (again, _, e2) = >>=-eq-ok _ (encode_cbor c frame) e1 in
      let (_, _, e3) = >>=-eq-ok _ (ensure (bytes_eq again encoded) malformed_frame) e2 in
      let (_, fits) = &&-parts _ _ (ensure-ok _ _ _ bounds) in
      subst (λ g. g.index < g.count) (ok_injective frame f (ok frame) refl e3)
        (in_bounds-index frame fits)

  decode_cbor-index :
      (encoded : Bytes) (f : Frame) → decode_cbor c encoded ≡ ok f → f.index < f.count
  unfolding decode_cbor
  decode_cbor-index encoded f =
      let P : Type 0 = f.index < f.count in
      let bad = malformed_frame in
      ok_after P (ok_or (c.get_array encoded) bad) _ (λ p.
        ok_after P (ensure (elim p.0 [ none ↦ false | some n ↦ n == 8 ]) bad) _ (λ _.
          ok_after P (ok_or (c.get_u16 p.1) bad) _ (λ v.
            ok_after P (ensure (v.0 == 1) QrError.unsupported_version) _ (λ _.
              ok_after P (ok_or (c.get_u16 v.1) bad) _ (λ t.
                ok_after P (ensure (t.0 == 1) QrError.unsupported_type) _ (λ _.
                  ok_after P (fixed_bytes c 16 t.1) _ (λ id.
                    ok_after P (fixed_bytes c 32 id.1) _ (λ digest.
                      ok_after P (ok_or (c.get_u16 digest.1) bad) _ (λ index.
                        ok_after P (ok_or (c.get_u16 index.1) bad) _ (λ count.
                          ok_after P (ok_or (c.get_u32 count.1) bad) _ (λ total.
                            ok_after P (ok_or (c.get_bytes total.1) bad) _ (λ chunk.
                              check_frame-index encoded chunk.1
                                (record {
                                  transfer_id = id.0;
                                  digest = digest.0;
                                  index = index.0;
                                  count = count.0;
                                  total_len = total.0;
                                  chunk = chunk.0;
                                })
                                f))))))))))))

  decode_text-index : (text : Bytes) (f : Frame) → decode_text c x text ≡ ok f → f.index < f.count
  unfolding decode_text
  decode_text-index text f =
      let P : Type 0 = f.index < f.count in
      let bad = malformed_frame in
      let payload = drop (length text_prefix) text in
      ok_after P
        (refuse
          (ltb 2048 (length text) || not (bytes_eq (take (length text_prefix) text) text_prefix))
          bad)
        _
        (λ _. ok_after P (refuse (length payload == 0 || any (λ b. b == 61) payload) bad) _ (λ _.
          ok_after P (ok_or (x.base64_url_decode payload) bad) _ (λ decoded.
            ok_after P (ensure (bytes_eq (x.base64_url_encode decoded) payload) bad) _
              (λ _. decode_cbor-index decoded f))))

  assembly_for-IsAssembly :
      (f : Frame) (now : ℕ) (r : QrReassembler) (o : Option ActiveAssembly)
      → IsUnderWay r o
      → f.index < f.count
      → IsAssembly (assembly_for c x f now o)
        × ((assembly_for c x f now o).received < (assembly_for c x f now o).count)
  unfolding assembly_for start_assembly
  assembly_for-IsAssembly f now r none v k = (start-IsAssembly f now, omega arith)
  assembly_for-IsAssembly f now r (some a) v k = (v.0, v.1)

  -- Whatever text is pushed and whatever the outcome, the counts of an assembly under way agree with
  -- its slots, one slot at least is empty, the bytes received do not pass the length announced, and a
  -- poisoned reassembler has no assembly, if that was so before.
  pub push-IsValid :
      (encoded : Bytes) (now : ℕ) (r : QrReassembler)
      → IsValid r
      → IsValid (push c x encoded now r).1
  unfolding push
  push-IsValid encoded now r v = elim (Bool-cases r.poisoned) [
    | inl y ↦ (let result : (push c x encoded now r).1 ≡ r = simp y in subst IsValid (sym result) v)
    | inr n ↦ elim (Result-cases (decode_text c x encoded)) [
      | inl (f, d) ↦
          (let a = assembly_for c x f now r.active in
            let index = decode_text-index encoded f d in
            let (w, room) = assembly_for-IsAssembly f now r r.active v index in
            let result : (push c x encoded now r).1 ≡ (push_frame c x f now a).1 = simp (n, d) in
            subst IsValid (sym result) (push_frame-IsValid f now a w room index))
      | inr (e, d) ↦
          (let result : (push c x encoded now r).1 ≡ r = simp (n, d) in
            subst IsValid (sym result) v)
    ]
  ]
