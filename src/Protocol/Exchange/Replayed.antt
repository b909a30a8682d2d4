-- ===== src/Protocol/Exchange/Replayed.antt =====
-- A request that `verify_request_with_replay` (crates/core/src/protocol/mod.rs) accepted over the
-- file store of crates/core/src/protocol/replay.rs is not accepted again.
use age_plugin_phone.Base.{
  ℕ, ◌<◌, ◌≡◌, sym, ap, ◌∙◌, ◌⊎◌, inl, inr, List, length, All, ok, err, Result-cases,
}
use age_plugin_phone.Base.Exec.{Exec, ◌>>◌, lift}
use age_plugin_phone.Cbor.{Cbor, IsCbor}
use age_plugin_phone.Crypto.{Crypto}
use age_plugin_phone.Protocol.{UnwrapRequest, Signed, PairingRecord, VerifiedRequest}
use age_plugin_phone.Protocol.Exchange.{verify_request_with_replay}
use age_plugin_phone.Protocol.Exchange.Checks.{verify_request_with_replay-checks}
use age_plugin_phone.Replay.Guard.{Write, FileReplayGuard, file_store, guard_request}
use age_plugin_phone.Replay.Guard.Once.{Event, FitsEvent, run}
use age_plugin_phone.Replay.Guard.Accept.{IsSound, accepted_once}

-- A consumption followed by a result.
consumed :
    {S E A : Type 0} (m : Exec S E (Unit {0})) (a v : A) (s : S)
    → ((m >> lift (ok a)) s).0 ≡ ok v
    → ((m s).0 ≡ ok tt) × (((m >> lift (ok a)) s).1 ≡ (m s).1)
consumed m a v s h = elim (Result-cases (m s).0) [
  | inl (u, e) ↦ (e, simp e)
  | inr (e, k) ↦ (let fails : ((m >> lift (ok a)) s).0 ≡ err e = simp k in cc)
]

module _ (c : Cbor) (x : Crypto) where
  -- An accepted request was consumed.
  accepted_consumed :
      (w : Write) (request : Signed UnwrapRequest) (pairing : PairingRecord) (now : ℕ)
      (g : FileReplayGuard) (v : VerifiedRequest)
      → (verify_request_with_replay c x (file_store c w) request pairing now g).0 ≡ ok v
      → let p = request.payload in
        let consume =
          guard_request c w pairing.desktop_id pairing.identity_id p.request_id p.nonce
            p.expires_at_unix now g in
        (consume.0 ≡ ok tt)
        × ((verify_request_with_replay c x (file_store c w) request pairing now g).1 ≡ consume.1)
  accepted_consumed w request pairing now g v h =
      elim (verify_request_with_replay-checks c x (file_store c w) request pairing now g) [
        | inl (e, r) ↦ (let fails = ap (λ p. p.0) r in cc)
        | inr (_, r) ↦
            (let p = request.payload in
              let (a, b) =
                consumed
                  (guard_request c w pairing.desktop_id pairing.identity_id p.request_id p.nonce
                    p.expires_at_unix now)
                  _ v g (sym (ap (λ p. p.0) r) ∙ h) in
              (a, ap (λ p. p.1) r ∙ b))
      ]

  module _ (h : IsCbor c) (w : Write) (request : Signed UnwrapRequest) (pairing : PairingRecord)
      (now : ℕ) (g : FileReplayGuard) (v : VerifiedRequest) (sound : IsSound c g)
      (id_fits : length request.payload.request_id ≡ 16)
      (nonce_fits : length request.payload.nonce ≡ 32)
      (accepted : (verify_request_with_replay c x (file_store c w) request pairing now g).0
        ≡ ok v) where
    -- Once a request was verified over the file store, every request with its identifier or its nonce
    -- that is verified later, after any consumptions, failed writes and restarts, is a longer-lived
    -- one and comes after the first has expired. The store is
    -- sound when the first request is verified, and the tokens have the sizes of their types.
    pub verified_once :
        (es : List Event)
        → All FitsEvent es
        → (w' : Write) (request' : Signed UnwrapRequest) (pairing' : PairingRecord) (now' : ℕ)
          (v' : VerifiedRequest)
        → ((request'.payload.request_id ≡ request.payload.request_id)
            ⊎ (request'.payload.nonce ≡ request.payload.nonce))
        → (verify_request_with_replay c x
            (file_store c w')
            request'
            pairing'
            now'
            (run c es (verify_request_with_replay c x (file_store c w) request pairing now g).1)).0
          ≡ ok v'
        → (request.payload.expires_at_unix < now')
          × (request.payload.expires_at_unix < request'.payload.expires_at_unix)
    verified_once es fits w' request' pairing' now' v' same again =
        let (taken, left) = accepted_consumed w request pairing now g v accepted in
        let p = request.payload in
        let p' = request'.payload in
        let first =
          guard_request c w pairing.desktop_id pairing.identity_id p.request_id p.nonce
            p.expires_at_unix now g in
        let retaken =
          (accepted_consumed w' request' pairing' now'
            (run c es (verify_request_with_replay c x (file_store c w) request pairing now g).1) v'
            again).0 in
        accepted_once c h w pairing.desktop_id pairing.identity_id p.request_id p.nonce
          p.expires_at_unix now g sound id_fits nonce_fits taken es fits w' pairing'.desktop_id
          pairing'.identity_id p'.request_id p'.nonce p'.expires_at_unix now' same
          (ap
              (λ later.
                (guard_request c w' pairing'.desktop_id pairing'.identity_id p'.request_id p'.nonce
                  p'.expires_at_unix now' (run c es later)).0)
              (sym left)
            ∙ retaken)
