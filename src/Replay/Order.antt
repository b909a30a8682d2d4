-- ===== src/Replay/Order.antt =====
-- The order on entries is strict and total, and sorting entries that are apart gives an ascending
-- list of the same entries.
use age_plugin_phone.Base.{
  ◌+◌, ◌≡◌, refl, ◌∙◌, Bool, true, false, ◌||◌, List, [], ◌∷◌, arith, bytes_eq, bytes_eq_sound,
  bytes_eq_refl, bytes_eq_comm, bytes_lt_trans, bytes_lt_total, length, All, Bool-cases, inl, inr,
}
use age_plugin_phone.Replay.{ReplayEntry, request, response, entry_lt, insert, sort}

pub entry_lt_trans :
    (e f g : ReplayEntry) → entry_lt e f ≡ true → entry_lt f g ≡ true → entry_lt e g ≡ true
unfolding entry_lt
entry_lt_trans (request i n e) (request i' n' e') (request i'' n'' e'') h k = ground (
  arith,
  bytes_lt_trans i i' i'',
  bytes_lt_trans n n' n'',
  bytes_eq_sound i i',
  bytes_eq_sound i' i'',
  bytes_eq_sound n n',
  bytes_eq_sound n' n'',
  bytes_eq_refl i'',
  bytes_eq_refl n'',
)
entry_lt_trans (request i n e) (request i' n' e') (response d'' e'') h k = refl
entry_lt_trans (request i n e) (response d' e') (request i'' n'' e'') h k = cc
entry_lt_trans (request i n e) (response d' e') (response d'' e'') h k = refl
entry_lt_trans (response d e) (request i' n' e') g h k = cc
entry_lt_trans (response d e) (response d' e') (request i'' n'' e'') h k = cc
entry_lt_trans (response d e) (response d' e') (response d'' e'') h k =
    ground (
      arith,
      bytes_lt_trans d d' d'',
      bytes_eq_sound d d',
      bytes_eq_sound d' d'',
      bytes_eq_refl d'',
    )

-- Two entries that name one token.
abbrev pub clash : ReplayEntry → ReplayEntry → Bool
clash (request id nonce e) (request id' nonce' e') = bytes_eq id' id || bytes_eq nonce' nonce
clash (response digest e) (response digest' e') = bytes_eq digest' digest
clash _ _ = false

pub clash_comm : (e f : ReplayEntry) → clash e f ≡ clash f e
clash_comm (request i n e) (request i' n' e') =
    ground (arith, bytes_eq_comm i i', bytes_eq_comm n n')
clash_comm (request i n e) (response d' e') = refl
clash_comm (response d e) (request i' n' e') = refl
clash_comm (response d e) (response d' e') = bytes_eq_comm d' d

pub entry_lt_total :
    (e f : ReplayEntry) → clash e f ≡ false → entry_lt e f ≡ false → entry_lt f e ≡ true
unfolding entry_lt
entry_lt_total (request i n e) (request i' n' e') h k =
    ground (arith, bytes_lt_total i i', bytes_eq_refl i')
entry_lt_total (request i n e) (response d' e') h k = cc
entry_lt_total (response d e) (request i' n' e') h k = refl
entry_lt_total (response d e) (response d' e') h k =
    ground (arith, bytes_lt_total d d', bytes_eq_refl d')

abbrev pub Below : ReplayEntry → List ReplayEntry → Type 0
Below e = All (λ f. entry_lt e f ≡ true)

abbrev pub Sorted : List ReplayEntry → Type 0
Sorted [] = Unit
Sorted (e ∷ es) = Below e es × Sorted es

abbrev pub Apart : ReplayEntry → List ReplayEntry → Type 0
Apart e = All (λ f. clash e f ≡ false)

abbrev pub Distinct : List ReplayEntry → Type 0
Distinct [] = Unit
Distinct (e ∷ es) = Apart e es × Distinct es

pub Below-trans :
    (e f : ReplayEntry) (es : List ReplayEntry) → entry_lt e f ≡ true → Below f es → Below e es
Below-trans e f [] h b = tt
Below-trans e f (g ∷ es) h b = (entry_lt_trans e f g h b.0, Below-trans e f es h b.1)

pub All-insert {κ} :
    (P : ReplayEntry → Type κ) (e : ReplayEntry) (fs : List ReplayEntry)
    → P e
    → All P fs
    → All P (insert e fs)
unfolding insert
All-insert P e [] p h = (p, tt)
All-insert P e (f ∷ fs) p h = elim (Bool-cases (entry_lt e f)) [
  | inl y ↦ rw y (p, h)
  | inr n ↦ rw n (h.0, All-insert P e fs p h.1)
]

pub All-sort {κ} : (P : ReplayEntry → Type κ) (es : List ReplayEntry) → All P es → All P (sort es)
unfolding sort
All-sort P [] h = tt
All-sort P (e ∷ es) h = All-insert P e (sort es) h.0 (All-sort P es h.1)

insert-Sorted :
    (e : ReplayEntry) (fs : List ReplayEntry) → Apart e fs → Sorted fs → Sorted (insert e fs)
unfolding insert
insert-Sorted e [] a s = (tt, tt)
insert-Sorted e (f ∷ fs) a s = elim (Bool-cases (entry_lt e f)) [
  | inl y ↦ rw y ((y, Below-trans e f fs y s.0), s)
  | inr n ↦ rw n (
    All-insert (λ g. entry_lt f g ≡ true) e fs (entry_lt_total e f a.0 n) s.0,
    insert-Sorted e fs a.1 s.1,
  )
]

insert-Distinct :
    (e : ReplayEntry) (fs : List ReplayEntry) → Apart e fs → Distinct fs → Distinct (insert e fs)
unfolding insert
insert-Distinct e [] a d = (tt, tt)
insert-Distinct e (f ∷ fs) a d = elim (Bool-cases (entry_lt e f)) [
  | inl y ↦ rw y (a, d)
  | inr n ↦ rw n (
    All-insert (λ g. clash f g ≡ false) e fs (clash_comm f e ∙ a.0) d.0,
    insert-Distinct e fs a.1 d.1,
  )
]

pub sort-Distinct : (es : List ReplayEntry) → Distinct es → Distinct (sort es)
unfolding sort
sort-Distinct [] d = tt
sort-Distinct (e ∷ es) d =
    insert-Distinct e (sort es) (All-sort (λ f. clash e f ≡ false) es d.0) (sort-Distinct es d.1)

pub sort-Sorted : (es : List ReplayEntry) → Distinct es → Sorted (sort es)
unfolding sort
sort-Sorted [] d = tt
sort-Sorted (e ∷ es) d =
    insert-Sorted e (sort es) (All-sort (λ f. clash e f ≡ false) es d.0) (sort-Sorted es d.1)

length-insert : (e : ReplayEntry) (fs : List ReplayEntry) → length (insert e fs) ≡ length fs + 1
unfolding insert
length-insert e [] = refl
length-insert e (f ∷ fs) = ground (arith, length-insert e fs)

pub length-sort : (es : List ReplayEntry) → length (sort es) ≡ length es
unfolding sort
length-sort [] = refl
length-sort (e ∷ es) = omega (arith, length-insert e (sort es), length-sort es)
