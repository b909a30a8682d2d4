-- ===== src/Replay.antt =====
-- crates/core/src/protocol/replay.rs: scopes, entries, the trait `ReplayStore`, and the order that
-- is derived for entries. The variants and fields are compared in the order of their declaration.
pub mod State
pub mod Order
pub mod Codec
pub mod Guard
use age_plugin_phone.Base.{
  ℕ, ◌≡◌, refl, Bool, true, false, not, ◌&&◌, ◌||◌, List, [], ◌∷◌, Bytes, bytes_eq, bytes_lt, ltb,
  leb, ◌==◌, if◌then◌else◌, Result, ok, err,
}
use age_plugin_phone.Protocol.{Error, replay_state, replay_capacity, PairingRecord}

pub data ReplayRole : Type 0 where
  phone_requests desktop_responses : ReplayRole

-- `role as u16`
abbrev pub role_code : ReplayRole → ℕ
role_code phone_requests = 1
role_code desktop_responses = 2

abbrev pub same_role : ReplayRole → ReplayRole → Bool
same_role phone_requests phone_requests = true
same_role desktop_responses desktop_responses = true
same_role _ _ = false

-- `ReplayRole::try_from`
unfoldable pub role_try_from : ℕ → Result Error ReplayRole
role_try_from value =
    if value == 1
    then ok phone_requests
    else if value == 2
    then ok desktop_responses
    else err replay_state

pub record ReplayScope : Type 0 where
  pub role : ReplayRole
  pub desktop_id : Bytes
  pub identity_id : Bytes

unfoldable pub for_pairing : ReplayRole → PairingRecord → ReplayScope
for_pairing role pairing = record {
  role = role;
  desktop_id = pairing.desktop_id;
  identity_id = pairing.identity_id;
}

unfoldable pub scope_eq : ReplayScope → ReplayScope → Bool
scope_eq s t =
    same_role s.role t.role
    && (bytes_eq s.desktop_id t.desktop_id && bytes_eq s.identity_id t.identity_id)

-- `ReplayEntry`: request id, nonce, expiry; or digest, expiry.
pub data ReplayEntry : Type 0 where
  request : Bytes → Bytes → ℕ → ReplayEntry
  response : Bytes → ℕ → ReplayEntry

abbrev pub expires_at_unix : ReplayEntry → ℕ
expires_at_unix (request id nonce expires) = expires
expires_at_unix (response digest expires) = expires

unfoldable pub entry_lt : ReplayEntry → ReplayEntry → Bool
entry_lt (request id nonce e) (request id' nonce' e') =
    bytes_lt id id'
    || (bytes_eq id id' && (bytes_lt nonce nonce' || (bytes_eq nonce nonce' && ltb e e')))
entry_lt (request id nonce e) (response digest' e') = true
entry_lt (response digest e) (request id' nonce' e') = false
entry_lt (response digest e) (response digest' e') =
    bytes_lt digest digest' || (bytes_eq digest digest' && ltb e e')

-- `sort_unstable` of the standard library.
unfoldable pub insert : ReplayEntry → List ReplayEntry → List ReplayEntry
insert e [] = e ∷ []
insert e (f ∷ fs) = let rest = insert e fs in if entry_lt e f then e ∷ f ∷ fs else f ∷ rest

unfoldable pub sort : List ReplayEntry → List ReplayEntry
unfolding insert
sort [] = []
sort (e ∷ es) = insert e (sort es)

abbrev pub max_configured_entries : ℕ
max_configured_entries = 16384

unfoldable pub validate_capacity : ℕ → Result Error (Unit {0})
validate_capacity capacity =
    if leb 1 capacity && leb capacity max_configured_entries then ok tt else err replay_capacity

-- The trait `ReplayStore`: a backend returns the outcome and the store that it leaves behind.
pub record ReplayStore (S : Type 0) : Type 0 where
  -- desktop id, identity id, request id, nonce, expiry, now
  pub consume_request : Bytes → Bytes → Bytes → Bytes → ℕ → ℕ → S → Result Error (Unit {0}) × S
  -- desktop id, identity id, response digest, expiry, now
  pub consume_response : Bytes → Bytes → Bytes → ℕ → ℕ → S → Result Error (Unit {0}) × S
