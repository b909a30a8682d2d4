-- ===== src/Setup.antt =====
-- crates/desktop/src/setup.rs: the journal of a setup, and which pairing it holds back. What `read_optional`
-- returns is an argument.
use age_plugin_phone.Base.{
  Bool, false, ◌&&◌, Option, some, none, Bytes, bytes_eq, Result, ok, err, refuse,
}
use age_plugin_phone.Pairing.{PublicIdentityStub}
use age_plugin_phone.Transport.Policy.{TransportChoice}

pub data SetupStage : Type 0 where
  provisioning pairing response_verified confirmed : SetupStage

pub record SetupJournal : Type 0 where
  pub explicit_paths : Bool
  pub stage : SetupStage
  pub setup_code : Bytes
  pub desktop_id : Bytes
  pub desktop_state : Bytes
  pub replay_state : Bytes
  pub identity_stub : Bytes
  pub transport : TransportChoice
  pub candidate : Option PublicIdentityStub

pub data SetupError : Type 0 where
  unsupported pending missing invalid storage busy : SetupError

unfoldable pub candidate_is : Option PublicIdentityStub → PublicIdentityStub → Bool
candidate_is none stub = false
candidate_is (some candidate) stub =
    bytes_eq candidate.desktop_id stub.desktop_id
    && (bytes_eq candidate.identity_id stub.identity_id
        && bytes_eq candidate.transcript_fingerprint stub.transcript_fingerprint)

unfoldable pub targets : SetupJournal → PublicIdentityStub → Bool
unfolding candidate_is
targets v stub = candidate_is v.candidate stub

unfoldable pub ensure_pairing_available :
    Result SetupError (Option SetupJournal) → PublicIdentityStub → Result SetupError (Unit {0})
unfolding targets
ensure_pairing_available (err e) stub = err e
ensure_pairing_available (ok none) stub = ok tt
ensure_pairing_available (ok (some v)) stub = refuse (targets v stub) pending
