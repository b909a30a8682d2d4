-- ===== src/Qr/Reassembler/Complete.antt =====
-- What a completed transfer of crates/core/src/protocol/qr.rs is.
use age_plugin_phone.Base.{
  ℕ, ◌+◌, ◌≡◌, sym, ap, ◌∙◌, true, some, arith, Bytes, bytes_eq_sound, length, get_elem?, set,
  ==_iff, ok, err, ok_or, Bool-cases, Result-cases, inl, inr, &&-parts, >>=-eq-ok,
}
use age_plugin_phone.Cbor.{Cbor}
use age_plugin_phone.Crypto.{Crypto}
use age_plugin_phone.Qr.{QrError, poisoned_assembly, Frame}
use age_plugin_phone.Qr.Frames.{decode_text, message_digest}
use age_plugin_phone.Qr.Reassembler.{
  complete, ActiveAssembly, QrReassembler, collect, concat, idle, same_transfer, assemble,
  finish_push, place, push_frame, assembly_for, push,
}

-- The transfer that `m` is the message of.
abbrev IsMessage : Cbor → Crypto → Bytes → ℕ → Bytes → Type 0
IsMessage c x digest total_len m = (length m ≡ total_len) × (message_digest c x m ≡ digest)

same_transfer-parts :
    (frame : Frame) (a : ActiveAssembly)
    → same_transfer frame a ≡ true
    → (a.digest ≡ frame.digest) × (a.total_len ≡ frame.total_len)
unfolding same_transfer
same_transfer-parts frame a e =
    let (_, r) = &&-parts _ _ e in
    let (d, r') = &&-parts _ _ r in
    let (_, l) = &&-parts _ _ r' in
    (sym (bytes_eq_sound frame.digest a.digest d), sym ((==_iff frame.total_len a.total_len).0 l))

module _ (c : Cbor) (x : Crypto) where
  assemble_ok :
      (a : ActiveAssembly) (m : Bytes)
      → assemble c x a ≡ ok m
      → IsMessage c x a.digest a.total_len m
  unfolding assemble
  assemble_ok a m e =
      let (chunks, _, e1) = >>=-eq-ok _ (collect a.chunks) e in
      let (first, _, e2) = >>=-eq-ok _ (ok_or (get_elem? chunks 0) QrError.malformed_frame) e1 in
      let sound = bytes_eq_sound (message_digest c x (concat chunks)) a.digest in ground arith

  finish_push_complete :
      (a : ActiveAssembly) (m : Bytes)
      → (finish_push c x a).0 ≡ ok (complete m)
      → IsMessage c x a.digest a.total_len m × ((finish_push c x a).1 ≡ idle)
  unfolding finish_push
  finish_push_complete a m e = elim (Result-cases (assemble c x a)) [
    | inl (m', r) ↦ (let found = assemble_ok a m' r in ground (arith, r))
    | inr (f, r) ↦ ground (arith, r)
  ]

  place_complete :
      (frame : Frame) (a : ActiveAssembly) (m : Bytes)
      → (place c x frame a).0 ≡ ok (complete m)
      → IsMessage c x a.digest a.total_len m × ((place c x frame a).1 ≡ idle)
  unfolding place
  place_complete frame a m e =
      let filled : ActiveAssembly = record a {
        received_bytes = a.received_bytes + length frame.chunk;
        chunks = set a.chunks frame.index (some frame.chunk);
        received = a.received + 1;
      } in
      ground (arith, finish_push_complete a m, finish_push_complete filled m)

  push_frame_complete :
      (frame : Frame) (now : ℕ) (a : ActiveAssembly) (m : Bytes)
      → (push_frame c x frame now a).0 ≡ ok (complete m)
      → IsMessage c x frame.digest frame.total_len m × ((push_frame c x frame now a).1 ≡ idle)
  unfolding push_frame
  push_frame_complete frame now a m e =
      ground (arith, place_complete frame a m, same_transfer-parts frame a)

  -- A message that is handed out has the length and the digest that the frame pushed last announced,
  -- and the reassembler is ready for the next transfer.
  pub push_complete :
      (encoded : Bytes) (now : ℕ) (r : QrReassembler) (m : Bytes)
      → (push c x encoded now r).0 ≡ ok (complete m)
      → (frame : Frame) × (decode_text c x encoded ≡ ok frame)
        × (length m ≡ frame.total_len)
        × (message_digest c x m ≡ frame.digest)
        × ((push c x encoded now r).1 ≡ idle)
  unfolding push
  push_complete encoded now r m e = elim (Bool-cases r.poisoned) [
    | inl y ↦ (let refused : (push c x encoded now r).0 ≡ err poisoned_assembly = simp y in cc)
    | inr n ↦ elim (Result-cases (decode_text c x encoded)) [
      | inl (frame, d) ↦
          (let pushed : push c x encoded now r
                ≡ push_frame c x frame now (assembly_for c x frame now r.active) =
              simp (n, d) in
            let (found, left) =
              push_frame_complete frame now (assembly_for c x frame now r.active) m
                (ap (λ p. p.0) (sym pushed) ∙ e) in
            (frame, d, found.0, found.1, ap (λ p. p.1) pushed ∙ left))
      | inr (f, d) ↦ (let refused : (push c x encoded now r).0 ≡ err f = simp (n, d) in cc)
    ]
  ]
