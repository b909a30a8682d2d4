-- ===== src/Transport/Stream/Once.antt =====
-- crates/desktop/src/transport.rs: a session of a stream exchanges one message at most.
use age_plugin_phone.Base.{
  ◌≡◌, refl, sym, ap, true, List, [], ◌∷◌, ◌++◌, Bytes, All, All-append, Result, err, Bool-cases,
  inl, inr,
}
use mathlib.Core.Path.{subst}
use age_plugin_phone.Transport.{SessionPurpose, TransportLimits, TransportError, session_closed}
use age_plugin_phone.Transport.Stream.{Stream, DesktopStreamSession, exchange, cancel}

-- The calls of the trait `DesktopTransport`.
pub data Call : Type 0 where
  exchanges : SessionPurpose → Bytes → Call
  cancels : Call

module _ {S : Type 0} (stream : Stream S) where
  -- What the calls return, and the session that they leave.
  unfoldable pub call :
      Call → DesktopStreamSession S → List (Result TransportError Bytes) × DesktopStreamSession S
  call (exchanges purpose request) s =
      let out = exchange stream purpose request s in (out.0 ∷ [], out.1)
  call cancels s = ([], cancel stream s)

  unfoldable pub calls :
      List Call
      → DesktopStreamSession S
      → List (Result TransportError Bytes) × DesktopStreamSession S
  calls [] s = ([], s)
  calls (a ∷ rest) s =
      let first = call a s in let later = calls rest first.1 in (first.0 ++ later.0, later.1)

  abbrev pub IsClosed : Result TransportError Bytes → Type 0
  IsClosed outcome = outcome ≡ err session_closed

  abbrev shut : S → TransportLimits → Bytes → DesktopStreamSession S
  shut inner limits session_id = record {
    stream = inner;
    limits = limits;
    session_id = session_id;
    closed = true;
  }

  call-shut :
      (a : Call) (inner : S) (limits : TransportLimits) (session_id : Bytes)
      → All IsClosed (call a (shut inner limits session_id)).0
        × ((call a (shut inner limits session_id)).1 ≡ shut inner limits session_id)
  unfolding call exchange
  call-shut cancels inner limits session_id = (tt, refl)
  call-shut (exchanges purpose request) inner limits session_id = ((refl, tt), refl)

  calls-shut :
      (rest : List Call) (inner : S) (limits : TransportLimits) (session_id : Bytes)
      → All IsClosed (calls rest (shut inner limits session_id)).0
        × ((calls rest (shut inner limits session_id)).1 ≡ shut inner limits session_id)
  unfolding calls
  calls-shut [] inner limits session_id = (tt, refl)
  calls-shut (a ∷ rest) inner limits session_id =
      let (refused, same) = call-shut a inner limits session_id in
      let (later, still) =
        subst
          (λ t. All IsClosed (calls rest t).0 × ((calls rest t).1 ≡ shut inner limits session_id))
          (sym same) (calls-shut rest inner limits session_id) in
      (
        All-append IsClosed (call a (shut inner limits session_id)).0
            (calls rest (call a (shut inner limits session_id)).1).0 refused later,
        still,
      )

  call_shuts : (a : Call) (s : DesktopStreamSession S) → (call a s).1.closed ≡ true
  unfolding call exchange
  call_shuts cancels s = refl
  call_shuts (exchanges purpose request) s = elim (Bool-cases s.closed) [
    | inl y ↦ simp y
    | inr n ↦ simp n
  ]

  -- Only the first call counts: after an exchange, whatever its outcome, and after a cancellation, every
  -- further exchange is refused as closed and the session and its stream stay as they are.
  pub calls_first :
      (a : Call) (rest : List Call) (s : DesktopStreamSession S)
      → ((calls (a ∷ rest) s).0 ≡ (call a s).0 ++ (calls rest (call a s).1).0)
        × All IsClosed (calls rest (call a s).1).0
        × ((calls (a ∷ rest) s).1 ≡ (call a s).1)
  unfolding calls
  calls_first a rest s =
      let t = (call a s).1 in
      let closes : t.closed ≡ true = call_shuts a s in
      let same : t ≡ shut t.stream t.limits t.session_id =
        ap
          (λ b.
            let r : DesktopStreamSession S = record {
              stream = t.stream;
              limits = t.limits;
              session_id = t.session_id;
              closed = b;
            } in
            r)
          closes in
      let (refused, still) =
        subst (λ r. All IsClosed (calls rest r).0 × ((calls rest r).1 ≡ r)) (sym same)
          (calls-shut rest t.stream t.limits t.session_id) in
      (refl, refused, still)
