-- ===== src/Transport/Messages.antt =====
-- crates/desktop/src/transport.rs: the header of a message, written and read.
use age_plugin_phone.Base.{
  ℕ, zero, suc, ◌+◌, ◌*◌, ◌^◌, ◌/◌, ◌%◌, ◌≤◌, ◌<◌, ◌≡◌, refl, sym, ap, ◌∙◌, true, some, none, [],
  ◌∷◌, ◌++◌, arith, Bytes, IsByte, IsBytes, All, bytes_eq_refl, bytes_eq_sound, length,
  length-append, take, drop, take-append_eq, take-append-drop, drop-drop, drop-append_eq, ltb, ok,
  ok_or, ok_or-ok, ensure, ensure-ok, refuse, refuse-ok, ok_injective, ok_step, &&-parts,
}
use mathlib.Core.Path.{subst}
use age_plugin_phone.Transport.{
  magic, stream_version, SessionPurpose, purpose_byte, Direction, direction_byte, TransportLimits,
  invalid_frame, message_too_large, u16_to_be, u32_to_be, u32_from_be, frame_header, slice,
  is_expected, message_size,
}

u32_from_be-u32_to_be : (n : ℕ) → n < 2 ^ 32 → u32_from_be (u32_to_be n) ≡ some n
unfolding u32_from_be u32_to_be
u32_from_be-u32_to_be n h = ap some (
    let value : ((n / 2 ^ 24) % 2 ^ 8) * 2 ^ 24
          + ((n / 2 ^ 16) % 2 ^ 8) * 2 ^ 16
          + ((n / 2 ^ 8) % 2 ^ 8) * 2 ^ 8
          + (n % 2 ^ 8)
        ≡ n =
      omega arith in
    value)

u32_to_be-u32_from_be :
    (bytes : Bytes) (n : ℕ)
    → All IsByte bytes
    → u32_from_be bytes ≡ some n
    → (bytes ≡ u32_to_be n) × (n < 2 ^ 32)
unfolding u32_from_be u32_to_be
u32_to_be-u32_from_be (a ∷ b ∷ c ∷ d ∷ []) n h e =
    let same : a * 2 ^ 24 + b * 2 ^ 16 + c * 2 ^ 8 + d ≡ n =
      ap (λ o. elim o as (λ o'. ℕ) [ none ↦ 0 | some m ↦ m ]) e in
    let (h0, (h1, (h2, (h3, _)))) = h in
    let ea : a ≡ (n / 2 ^ 24) % 2 ^ 8 = omega arith in
    let eb : b ≡ (n / 2 ^ 16) % 2 ^ 8 = omega arith in
    let ec : c ≡ (n / 2 ^ 8) % 2 ^ 8 = omega arith in
    let ed : d ≡ n % 2 ^ 8 = omega arith in (cc, omega arith)
u32_to_be-u32_from_be [] n h e = cc
u32_to_be-u32_from_be (a ∷ []) n h e = cc
u32_to_be-u32_from_be (a ∷ b ∷ []) n h e = cc
u32_to_be-u32_from_be (a ∷ b ∷ c ∷ []) n h e = cc
u32_to_be-u32_from_be (a ∷ b ∷ c ∷ d ∷ e' ∷ rest) n h e = cc

module _ (purpose : SessionPurpose) (direction : Direction) (session_id : Bytes) where
  is_expected_lem :
      (size : ℕ)
      → length session_id ≡ 16
      → is_expected purpose direction session_id (frame_header purpose direction session_id size)
        ≡ true
  unfolding is_expected frame_header
  is_expected_lem size l =
      let id : take 16 (session_id ++ u32_to_be size) ≡ session_id =
        take-append_eq 16 session_id (u32_to_be size) l in
      rw
        (
          id,
          bytes_eq_refl magic,
          bytes_eq_refl (u16_to_be stream_version),
          bytes_eq_refl (purpose_byte purpose ∷ []),
          bytes_eq_refl (direction_byte direction ∷ []),
          bytes_eq_refl session_id,
        )
        refl

  size_part :
      (size : ℕ)
      → length session_id ≡ 16
      → drop 24 (frame_header purpose direction session_id size) ≡ u32_to_be size
  unfolding frame_header u16_to_be
  size_part size l = drop-append_eq 16 session_id (u32_to_be size) l

  -- The header of a message of fewer than 2^32 bytes that keeps the limits announces its size.
  pub message_size-frame_header :
      (limits : TransportLimits) (size : ℕ)
      → length session_id ≡ 16
      → size < 2 ^ 32
      → size ≤ limits.max_message_bytes
      → message_size purpose direction session_id limits
          (frame_header purpose direction session_id size)
        ≡ ok size
  unfolding message_size
  message_size-frame_header limits size l h k =
      rw (is_expected_lem size l, size_part size l, u32_from_be-u32_to_be size h) (ground arith)

  pub length-frame_header :
      (size : ℕ)
      → length session_id ≡ 16
      → length (frame_header purpose direction session_id size) ≡ 28
  unfolding frame_header u32_to_be
  length-frame_header size l = omega (arith, length-append session_id (u32_to_be size))

cut_step :
    (from size to : ℕ) (bytes : Bytes)
    → from + size ≡ to
    → drop from bytes ≡ slice from size bytes ++ drop to bytes
cut_step from size to bytes e =
    sym (take-append-drop size (drop from bytes))
    ∙ ap (λ rest. slice from size bytes ++ rest)
        (drop-drop from size bytes ∙ ap (λ n. drop n bytes) e)

cut_header :
    (h : Bytes)
    → h
      ≡ slice 0 4 h
        ++ (slice 4 2 h ++ (slice 6 1 h ++ (slice 7 1 h ++ (slice 8 16 h ++ drop 24 h))))
cut_header h =
    cut_step 0 4 4 h refl
    ∙ ap (λ r. slice 0 4 h ++ r)
        (cut_step 4 2 6 h refl
          ∙ ap (λ r. slice 4 2 h ++ r)
              (cut_step 6 1 7 h refl
                ∙ ap (λ r. slice 6 1 h ++ r)
                    (cut_step 7 1 8 h refl ∙ ap (λ r. slice 7 1 h ++ r) (cut_step 8 16 24 h refl))))

All-drop : (n : ℕ) (bytes : Bytes) → All IsByte bytes → All IsByte (drop n bytes)
All-drop zero bytes h = h
All-drop (suc n) [] h = h
All-drop (suc n) (b ∷ bytes) h = All-drop n bytes h.1

module _ (purpose : SessionPurpose) (direction : Direction) (session_id : Bytes) where
  frame_header_parts :
      (h : Bytes) (size : ℕ)
      → slice 0 4 h ≡ magic
      → slice 4 2 h ≡ u16_to_be stream_version
      → slice 6 1 h ≡ purpose_byte purpose ∷ []
      → slice 7 1 h ≡ direction_byte direction ∷ []
      → slice 8 16 h ≡ session_id
      → drop 24 h ≡ u32_to_be size
      → slice 0 4 h
          ++ (slice 4 2 h ++ (slice 6 1 h ++ (slice 7 1 h ++ (slice 8 16 h ++ drop 24 h))))
        ≡ frame_header purpose direction session_id size
  unfolding frame_header
  frame_header_parts h size e1 e2 e3 e4 e5 e6 = rw (e1, e2, e3, e4, e5, e6) refl

  -- A header that is accepted is that of a message of the size read, for this purpose, direction and
  -- session, and the size keeps the limits.
  pub message_size_sound :
      (limits : TransportLimits) (header : Bytes) (size : ℕ)
      → IsBytes header
      → message_size purpose direction session_id limits header ≡ ok size
      → (header ≡ frame_header purpose direction session_id size)
        × (size ≤ limits.max_message_bytes)
        × (size < 2 ^ 32)
  unfolding message_size is_expected
  message_size_sound limits header size bytes =
      let P : Type 0 =
        (header ≡ frame_header purpose direction session_id size)
        × (size ≤ limits.max_message_bytes)
        × (size < 2 ^ 32) in
      ok_step P (ensure (is_expected purpose direction session_id header) invalid_frame) _ (λ u e1.
        ok_step P (ok_or (u32_from_be (drop 24 header)) invalid_frame) _ (λ n e2.
          ok_step P (refuse (ltb limits.max_message_bytes n) message_too_large) _ (λ w e3 e4.
            let same = ok_injective n size (ok n) refl e4 in
            let (m, r1) = &&-parts _ _ (ensure-ok _ _ u e1) in
            let (v, r2) = &&-parts _ _ r1 in
            let (p, r3) = &&-parts _ _ r2 in
            let (d, i) = &&-parts _ _ r3 in
            let (tail, small) =
              u32_to_be-u32_from_be (drop 24 header) n (All-drop 24 header bytes)
                (ok_or-ok (u32_from_be (drop 24 header)) invalid_frame n e2) in
            let fits : n ≤ limits.max_message_bytes =
              (let no = refuse-ok _ _ w e3 in ground arith) in
            subst
              (λ k.
                (header ≡ frame_header purpose direction session_id k)
                × (k ≤ limits.max_message_bytes)
                × (k < 2 ^ 32))
              same
              (
                cut_header header
                    ∙ frame_header_parts header n (bytes_eq_sound _ _ m) (bytes_eq_sound _ _ v)
                        (bytes_eq_sound _ _ p) (bytes_eq_sound _ _ d) (bytes_eq_sound _ _ i) tail,
                fits,
                small,
              ))))
