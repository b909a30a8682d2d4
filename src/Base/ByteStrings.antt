-- ===== src/Base/ByteStrings.antt =====
-- Byte strings (`Vec<u8>`, `[u8; N]`, `&str` as its UTF-8 bytes): lists of numbers, with the
-- equality and the lexicographic order that Rust derives for them.
use Prim.Native.Nat.{ℕ, ◌<◌}
use mathlib.Core.Path.{◌≡◌, refl}
use mathlib.Core.Logic.{◌↔◌, ◌≢◌, inl, inr}
use mathlib.Core.Bool.{Bool, true, false, ◌&&◌, ◌||◌}
use mathlib.Core.List.{List, [], ◌∷◌}
use Prim.Native.Char.{code}
use Prim.Native.String.{String}
use native.Mathlib.Omega.{arith}
use age_plugin_phone.Base.Tests.{ltb, ◌==◌, Bool-cases}
use age_plugin_phone.Base.Lists.{length, All}

abbrev pub Bytes : Type 0
Bytes = List ℕ

abbrev pub IsByte : ℕ → Type 0
IsByte b = b < 256

abbrev pub IsBytes : Bytes → Type 0
IsBytes = All IsByte

-- A value of `[u8; n]`.
abbrev pub IsArray : ℕ → Bytes → Type 0
IsArray n bs = (length bs ≡ n) × IsBytes bs

-- The bytes of an ASCII literal.
abbrev pub codes : String → Bytes
codes String.[] = []
codes (String.◌∷◌ c s) = code c ∷ codes s

unfoldable pub bytes_eq : Bytes → Bytes → Bool
bytes_eq [] [] = true
bytes_eq [] (b ∷ bs) = false
bytes_eq (a ∷ as') [] = false
bytes_eq (a ∷ as') (b ∷ bs) = a == b && bytes_eq as' bs

pub bytes_eq_sound : (as' bs : Bytes) → bytes_eq as' bs ≡ true → as' ≡ bs
unfolding bytes_eq
bytes_eq_sound [] [] h = refl
bytes_eq_sound [] (b ∷ bs) h = cc
bytes_eq_sound (a ∷ as') [] h = cc
bytes_eq_sound (a ∷ as') (b ∷ bs) h = ground (arith, bytes_eq_sound as' bs)

pub bytes_eq_refl : (bs : Bytes) → bytes_eq bs bs ≡ true
unfolding bytes_eq
bytes_eq_refl [] = refl
bytes_eq_refl (b ∷ bs) = ground (arith, bytes_eq_refl bs)

pub bytes_eq_iff : (as' bs : Bytes) → (bytes_eq as' bs ≡ true) ↔ (as' ≡ bs)
bytes_eq_iff as' bs = (bytes_eq_sound as' bs, λ e. rw e (bytes_eq_refl bs))

pub bytes_eq-false_iff : (as' bs : Bytes) → (bytes_eq as' bs ≡ false) ↔ (as' ≢ bs)
bytes_eq-false_iff as' bs = (
  λ e same. (let met : bytes_eq as' bs ≡ true = rw same (bytes_eq_refl bs) in cc),
  λ apart. elim (Bool-cases (bytes_eq as' bs)) [
    | inl hit ↦ absurd (apart (bytes_eq_sound as' bs hit))
    | inr miss ↦ miss
  ],
)

-- The strict lexicographic order.
unfoldable pub bytes_lt : Bytes → Bytes → Bool
bytes_lt [] [] = false
bytes_lt [] (b ∷ bs) = true
bytes_lt (a ∷ as') [] = false
bytes_lt (a ∷ as') (b ∷ bs) = ltb a b || (a == b && bytes_lt as' bs)

pub bytes_lt_trans :
    (as' bs cs : Bytes) → bytes_lt as' bs ≡ true → bytes_lt bs cs ≡ true → bytes_lt as' cs ≡ true
unfolding bytes_lt
bytes_lt_trans [] [] cs h k = cc
bytes_lt_trans [] (b ∷ bs) [] h k = cc
bytes_lt_trans [] (b ∷ bs) (c ∷ cs) h k = refl
bytes_lt_trans (a ∷ as') [] cs h k = cc
bytes_lt_trans (a ∷ as') (b ∷ bs) [] h k = cc
bytes_lt_trans (a ∷ as') (b ∷ bs) (c ∷ cs) h k = ground (arith, bytes_lt_trans as' bs cs)

pub bytes_lt_total : (as' bs : Bytes) → bytes_lt as' bs ≡ false → bytes_lt bs as' ≡ false → as' ≡ bs
unfolding bytes_lt
bytes_lt_total [] [] h k = refl
bytes_lt_total [] (b ∷ bs) h k = cc
bytes_lt_total (a ∷ as') [] h k = cc
bytes_lt_total (a ∷ as') (b ∷ bs) h k = ground (arith, bytes_lt_total as' bs)

pub bytes_lt_irrefl : (bs : Bytes) → bytes_lt bs bs ≡ false
unfolding bytes_lt
bytes_lt_irrefl [] = refl
bytes_lt_irrefl (b ∷ bs) = ground (arith, bytes_lt_irrefl bs)

pub bytes_eq_comm : (as' bs : Bytes) → bytes_eq as' bs ≡ bytes_eq bs as'
unfolding bytes_eq
bytes_eq_comm [] [] = refl
bytes_eq_comm [] (b ∷ bs) = refl
bytes_eq_comm (a ∷ as') [] = refl
bytes_eq_comm (a ∷ as') (b ∷ bs) = ground (arith, bytes_eq_comm as' bs)
