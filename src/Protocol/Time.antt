-- ===== src/Protocol/Time.antt =====
-- crates/core/src/protocol/mod.rs: `validate_request_time` and `request_expiry`.
use age_plugin_phone.Base.{
  ℕ, ◌+◌, ◌-◌, ◌^◌, ◌≤◌, ◌<◌, ◌≡◌, ◌↔◌, ◌⊎◌, ◌||◌, ltb, leb, if◌then◌else◌, arith, Result, ok, err,
  inl, inr,
}
use native.Mathlib.Decide.{dec_lt}
use age_plugin_phone.Protocol.{
  Error, malformed, expired, lifetime_too_long, max_protocol_time, max_request_lifetime_secs,
}

unfoldable pub validate_request_time : ℕ → ℕ → Result Error (Unit {0})
validate_request_time expires now =
    if ltb max_protocol_time expires || ltb max_protocol_time now
    then err malformed
    else if ltb expires now
    then err expired
    else if ltb max_request_lifetime_secs (expires - now)
    then err lifetime_too_long
    else ok tt

-- `now.checked_add(300)` on a u64, then the filter.
unfoldable pub request_expiry : ℕ → Result Error ℕ
request_expiry now =
    let expires = now + max_request_lifetime_secs in
    if leb (2 ^ 64) expires
    then err malformed
    else if leb expires max_protocol_time
    then ok expires
    else err malformed

-- A request time is accepted exactly when the expiry is not past, is at most the maximal lifetime
-- ahead, and fits a signed 64-bit clock.
pub validate_request_time_iff :
    (expires now : ℕ)
    → (validate_request_time expires now ≡ ok tt)
      ↔ ((now ≤ expires) × (expires ≤ now + 300) × (expires < 2 ^ 63))
unfolding validate_request_time
validate_request_time_iff expires now = (λ h. ground arith, λ h. ground arith)

request_expiry_ok : (now : ℕ) → now + 300 < 2 ^ 63 → request_expiry now ≡ ok (now + 300)
unfolding request_expiry
request_expiry_ok now h = ground arith

request_expiry_err : (now : ℕ) → 2 ^ 63 ≤ now + 300 → request_expiry now ≡ err malformed
unfolding request_expiry
request_expiry_err now h = ground arith

-- The expiry that the desktop computes is accepted at once and until it is reached, and not later;
-- where none can be computed the clock is within five minutes of the limit or past it.
pub request_expiry-validate_request_time :
    (now : ℕ)
    → ((expires : ℕ) × (request_expiry now ≡ ok expires)
        × ((later : ℕ)
            → now ≤ later
            → (validate_request_time expires later ≡ ok tt) ↔ (later ≤ now + 300)))
      ⊎ ((request_expiry now ≡ err malformed) × (2 ^ 63 ≤ now + 300))
request_expiry-validate_request_time now = elim (dec_lt (now + 300) (2 ^ 63)) [
  | yes h ↦ inl (
    now + 300,
    request_expiry_ok now h,
    λ later k. (
      λ e. ((validate_request_time_iff (now + 300) later).0 e).0,
      λ l. (validate_request_time_iff (now + 300) later).1 (l, omega arith, h),
    ),
  )
  | no h ↦ inr (request_expiry_err now (omega arith), omega arith)
]
