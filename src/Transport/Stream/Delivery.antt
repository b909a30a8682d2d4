-- ===== src/Transport/Stream/Delivery.antt =====
-- crates/desktop/src/transport.rs: what one side writes the other side reads, over a stream that keeps
-- the bytes in order.
use age_plugin_phone.Base.{
  ℕ, ◌^◌, ◌≤◌, ◌<◌, ◌≡◌, refl, sym, ap, ◌∙◌, true, false, some, ◌++◌, arith, Bytes, length, ltb,
  leb, ok, err, Bool-cases, inl, inr, refuse, refuse-ok, ok_step, ok_after, ok_or, ok_or-ok,
  ok_injective, ensure, drop,
}
use age_plugin_phone.Base.Exec.{>>=-ok, lift}
use mathlib.Core.Path.{subst}
use mathlib.Core.List.{append_assoc}
use age_plugin_phone.Transport.{
  SessionPurpose, Direction, desktop_request, phone_response, TransportLimits, io, frame_header,
  message_size, header_for, message_too_large, invalid_frame, session_closed, is_expected,
  u32_from_be, header_len,
}
use age_plugin_phone.Transport.Messages.{message_size-frame_header, length-frame_header}
use age_plugin_phone.Transport.Stream.{
  Stream, io_step, write_message, read_message, DesktopStreamSession, converse, exchange,
}

-- The documented behaviour of `write_all`, `flush` and `read_exact` on a stream that works: `sent` is
-- what has been written, and `incoming` what is there to be read.
pub record IsStream {S : Type 0} (stream : Stream S) : Type 0 where
  pub sent : S → Bytes
  pub incoming : S → Bytes
  pub write_law :
      (bytes : Bytes) (s : S)
      → (t : S) × (stream.write_all bytes s ≡ (some tt, t))
        × (sent t ≡ sent s ++ bytes)
        × (incoming t ≡ incoming s)
  pub read_law :
      (bytes rest : Bytes) (s : S)
      → incoming s ≡ bytes ++ rest
      → (t : S) × (stream.read_exact (length bytes) s ≡ (some bytes, t))
        × (incoming t ≡ rest)
        × (sent t ≡ sent s)
  -- `read_exact` fills the buffer or fails.
  pub read_size :
      (n : ℕ) (s : S) (bytes : Bytes) → (stream.read_exact n s).0 ≡ some bytes → length bytes ≡ n

-- A message with its header.
abbrev pub framed : SessionPurpose → Direction → Bytes → Bytes → Bytes
framed purpose direction session_id message =
    frame_header purpose direction session_id (length message) ++ message

module _ {S : Type 0} (stream : Stream S) (w : IsStream stream) (purpose : SessionPurpose)
    (direction : Direction) (session_id : Bytes) (id_fits : length session_id ≡ 16) where
  -- A message that keeps the limits, which are below 2^32, is written as its frame.
  pub write_message_frame :
      (message : Bytes) (limits : TransportLimits) (s : S)
      → length message ≤ limits.max_message_bytes
      → limits.max_message_bytes < 2 ^ 32
      → (t : S) × (write_message stream purpose direction session_id message limits s ≡ (ok tt, t))
        × (w.sent t ≡ w.sent s ++ framed purpose direction session_id message)
        × (w.incoming t ≡ w.incoming s)
  unfolding write_message header_for
  write_message_frame message limits s h k =
      let header = frame_header purpose direction session_id (length message) in
      let (t1, e1, sent1, in1) = w.write_law header s in
      let (t2, e2, sent2, in2) = w.write_law message t1 in
      let small : ltb limits.max_message_bytes (length message) ≡ false = ground arith in
      let fits : leb (2 ^ 32) (length message) ≡ false = ground arith in
      (
        t2,
        rw (small, fits, e1, e2) refl,
        sent2 ∙ (ap (λ b. b ++ message) sent1 ∙ append_assoc (w.sent s) header message),
        in2 ∙ in1,
      )

  -- The frame of a message that keeps the limits is read as the message, and what follows it is left.
  pub read_message_frame :
      (message rest : Bytes) (limits : TransportLimits) (s : S)
      → length message ≤ limits.max_message_bytes
      → limits.max_message_bytes < 2 ^ 32
      → w.incoming s ≡ framed purpose direction session_id message ++ rest
      → (t : S) × (read_message stream purpose direction session_id limits s ≡ (ok message, t))
        × (w.incoming t ≡ rest)
        × (w.sent t ≡ w.sent s)
  unfolding read_message
  read_message_frame message rest limits s h k e =
      let header = frame_header purpose direction session_id (length message) in
      let (t1, e1, in1, sent1) =
        w.read_law header (message ++ rest) s (e ∙ append_assoc header message rest) in
      let (t2, e2, in2, sent2) = w.read_law message rest t1 in1 in
      let e1' : stream.read_exact 28 s ≡ (some header, t1) =
        subst (λ n. stream.read_exact n s ≡ (some header, t1))
          (length-frame_header purpose direction session_id (length message) id_fits) e1 in
      let size =
        message_size-frame_header purpose direction session_id limits (length message) id_fits
          (omega arith) h in
      (t2, rw (e1', size, e2) refl, in2, sent2 ∙ sent1)

module _ {S : Type 0} (stream : Stream S) (w : IsStream stream) where
  -- The peer answers the request that it is sent, once that is flushed, with nothing in between.
  abbrev pub Answers : SessionPurpose → Bytes → Bytes → Bytes → Bytes → S → Type 0
  Answers purpose session_id request response rest s =
      (t : S)
      → w.sent t ≡ w.sent s ++ framed purpose desktop_request session_id request
      → w.incoming t ≡ w.incoming s
      → (f : S) × (stream.flush t ≡ (some tt, f))
        × (w.incoming f ≡ framed purpose phone_response session_id response ++ rest)

  converse_answered :
      (purpose : SessionPurpose) (session_id : Bytes) (limits : TransportLimits)
      (request response rest : Bytes) (s : S)
      → length session_id ≡ 16
      → limits.max_message_bytes < 2 ^ 32
      → length request ≤ limits.max_message_bytes
      → length response ≤ limits.max_message_bytes
      → Answers purpose session_id request response rest s
      → (t : S) × (converse stream purpose session_id limits request s ≡ (ok response, t))
        × (w.incoming t ≡ rest)
  unfolding converse
  converse_answered purpose session_id limits request response rest s id_fits k h1 h2 answers =
      let (t1, e1, sent, same) =
        write_message_frame stream w purpose desktop_request session_id id_fits request limits s h1
          k in
      let (t2, e2, arrived) = answers t1 sent same in
      let (t3, e3, left, _) =
        read_message_frame stream w purpose phone_response session_id id_fits response rest limits
          t2 h2 k arrived in
      (t3, rw (e1, e2, e3) refl, left)

  -- An open session with limits below 2^32 exchanges a request that keeps them for the response of the
  -- peer, if that keeps them too: the peer is sent the frame of the request, what it sends behind its
  -- response is left unread, and the session is closed.
  pub exchange_answered :
      (purpose : SessionPurpose) (request response rest : Bytes) (s : DesktopStreamSession S)
      → s.closed ≡ false
      → length s.session_id ≡ 16
      → s.limits.max_message_bytes < 2 ^ 32
      → length request ≤ s.limits.max_message_bytes
      → length response ≤ s.limits.max_message_bytes
      → Answers purpose s.session_id request response rest s.stream
      → (t : S) × (exchange stream purpose request s
          ≡ (ok response, record s { stream = t; closed = true }))
        × (w.incoming t ≡ rest)
  unfolding exchange
  exchange_answered purpose request response rest s open' id_fits k h1 h2 answers =
      let (t, e, left) =
        converse_answered purpose s.session_id s.limits request response rest s.stream id_fits k h1
          h2 answers in
      (t, rw (open', e) refl, left)

  write_message_le :
      (purpose : SessionPurpose) (direction : Direction) (session_id message : Bytes)
      (limits : TransportLimits) (s : S) (u : Unit {0})
      → (write_message stream purpose direction session_id message limits s).0 ≡ ok u
      → length message ≤ limits.max_message_bytes
  unfolding write_message header_for
  write_message_le purpose direction session_id message limits s u e =
      elim (Bool-cases (ltb limits.max_message_bytes (length message))) [
        | inl y ↦
            (let fails : (write_message stream purpose direction session_id message limits s).0
                  ≡ err message_too_large =
                simp y in
              cc)
        | inr n ↦ ground arith
      ]

  message_size_le :
      (purpose : SessionPurpose) (direction : Direction) (session_id header : Bytes)
      (limits : TransportLimits) (size : ℕ)
      → message_size purpose direction session_id limits header ≡ ok size
      → size ≤ limits.max_message_bytes
  unfolding message_size
  message_size_le purpose direction session_id header limits size =
      let P : Type 0 = size ≤ limits.max_message_bytes in
      ok_after P (ensure (is_expected purpose direction session_id header) invalid_frame) _ (λ _.
        ok_after P (ok_or (u32_from_be (drop 24 header)) invalid_frame) _ (λ n.
          ok_step P (refuse (ltb limits.max_message_bytes n) message_too_large) _ (λ u e f.
            let same = ok_injective n size (ok n) refl f in
            let no = refuse-ok _ _ u e in
            subst (λ k. k ≤ limits.max_message_bytes) same (ground arith))))

  read_message_le :
      (purpose : SessionPurpose) (direction : Direction) (session_id message : Bytes)
      (limits : TransportLimits) (s : S)
      → (read_message stream purpose direction session_id limits s).0 ≡ ok message
      → length message ≤ limits.max_message_bytes
  unfolding read_message
  read_message_le purpose direction session_id message limits s e =
      let (header, _, e1) = >>=-ok (io_step (stream.read_exact header_len)) _ s message e in
      let (size, f, e2) =
        >>=-ok (lift (message_size purpose direction session_id limits header)) _ _ message e1 in
      let read = w.read_size size _ message (ok_or-ok _ io message e2) in
      let fits = message_size_le purpose direction session_id header limits size f in
      omega (arith, read, fits)

  converse_le :
      (purpose : SessionPurpose) (session_id : Bytes) (limits : TransportLimits)
      (request response : Bytes) (s : S)
      → (converse stream purpose session_id limits request s).0 ≡ ok response
      → (length request ≤ limits.max_message_bytes) × (length response ≤ limits.max_message_bytes)
  unfolding converse
  converse_le purpose session_id limits request response s e =
      let (u, f, e1) =
        >>=-ok (write_message stream purpose desktop_request session_id request limits) _ s response
          e in
      let (_, _, e2) = >>=-ok (io_step stream.flush) _ _ response e1 in
      (
        write_message_le purpose desktop_request session_id request limits s u f,
        read_message_le purpose phone_response session_id response limits _ e2,
      )

  -- A session only exchanges while it is open, and neither the request that it sends nor the response
  -- that it returns passes the limits, whatever is on the stream.
  pub exchange_le :
      (purpose : SessionPurpose) (request response : Bytes) (s : DesktopStreamSession S)
      → (exchange stream purpose request s).0 ≡ ok response
      → (s.closed ≡ false)
        × (length request ≤ s.limits.max_message_bytes)
        × (length response ≤ s.limits.max_message_bytes)
  unfolding exchange
  exchange_le purpose request response s e = elim (Bool-cases s.closed) [
    | inl y ↦
        (let fails : (exchange stream purpose request s).0 ≡ err session_closed = simp y in cc)
    | inr n ↦
        (let goes : (exchange stream purpose request s).0
              ≡ (converse stream purpose s.session_id s.limits request s.stream).0 =
            simp n in
          let (a, b) =
            converse_le purpose s.session_id s.limits request response s.stream (sym goes ∙ e) in
          (n, a, b))
  ]
