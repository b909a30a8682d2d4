-- ===== src/Discovery/Unique.antt =====
-- crates/desktop/src/wifi.rs: the phone that a discovery finds.
use age_plugin_phone.Base.{
  ℕ, ◌≡◌, refl, sym, ap, ◌∙◌, true, Bool-cases, inl, inr, Option, some, none, List, [], ◌∷◌,
  bytes_eq_sound, leb, any, All, arith, if◌then◌else◌, Result, ok, err, Result-cases, ◌==◌,
  &&-parts, ==_iff, ok_injective,
}
use age_plugin_phone.Base.Exec.{Exec, lift, ◌>>◌}
use mathlib.Core.Path.{subst}
use age_plugin_phone.Crypto.{Crypto}
use age_plugin_phone.Transport.Policy.{IpAddr, v4, v6, SocketAddr}
use age_plugin_phone.Discovery.{DiscoveryQuery}
use age_plugin_phone.Discovery.Search.{
  WifiError, Pass, ip_eq, endpoint_eq, insert, record_discovery_candidate, answer_of, take_answer,
  went_on, send_due, next_after, verdict, run_pass, run_passes, discover_with_io,
}

ip_eq_sound : (p q : IpAddr) → ip_eq p q ≡ true → p ≡ q
ip_eq_sound (v4 a b c d) (v4 a' b' c' d') e =
    let (ea, e1) = &&-parts (a == a') _ e in
    let (eb, e2) = &&-parts (b == b') _ e1 in
    let (ec, ed) = &&-parts (c == c') (d == d') e2 in
    let fa = (==_iff a a').0 ea in
    let fb = (==_iff b b').0 eb in let fc = (==_iff c c').0 ec in let fd = (==_iff d d').0 ed in cc
ip_eq_sound (v6 a) (v6 b) e = ap (λ c. v6 c) (bytes_eq_sound a b e)
ip_eq_sound (v4 a b c d) (v6 e') e = cc
ip_eq_sound (v6 a) (v4 b c d e') e = cc

endpoint_eq_sound : (p q : SocketAddr) → endpoint_eq p q ≡ true → p ≡ q
endpoint_eq_sound p q e =
    let (ei, ep) = &&-parts (ip_eq p.ip q.ip) (p.port == q.port) e in
    let fi = ip_eq_sound p.ip q.ip ei in let fp = (==_iff p.port q.port).0 ep in cc

abbrev pub AllAre : SocketAddr → List SocketAddr → Type 0
AllAre e = All (λ a. a ≡ e)

-- A member of candidates that are all one endpoint is that endpoint.
any_endpoint :
    (e a : SocketAddr) (candidates : List SocketAddr)
    → AllAre e candidates
    → any (endpoint_eq a) candidates ≡ true
    → a ≡ e
any_endpoint e a [] all h = cc
any_endpoint e a (c ∷ candidates) (same, all) h = elim (Bool-cases (endpoint_eq a c)) [
  | inl hit ↦ endpoint_eq_sound a c hit ∙ same
  | inr miss ↦ any_endpoint e a candidates all (ground arith)
]

insert-AllAre :
    (e a : SocketAddr) (candidates : List SocketAddr)
    → AllAre e (insert a candidates)
    → AllAre e candidates × (a ≡ e)
unfolding insert
insert-AllAre e a candidates all = elim (Bool-cases (any (endpoint_eq a) candidates)) [
  | inl hit ↦
      let same : insert a candidates ≡ candidates = simp hit in
      let before = subst (AllAre e) same all in (before, any_endpoint e a candidates before hit)
  | inr miss ↦
      let more : insert a candidates ≡ a ∷ candidates = simp miss in
      let (first, rest) = subst (AllAre e) more all in (rest, first)
]

abbrev pub onto : Option SocketAddr → List SocketAddr → List SocketAddr
onto none endpoints = endpoints
onto (some endpoint) endpoints = endpoint ∷ endpoints

-- A result that is needed first, and is a success, leaves what comes behind.
behind_lift :
    {A : Type 0} (r : Result WifiError (Unit {0})) (m : Exec (List SocketAddr) WifiError A)
    (s : List SocketAddr) (a : A)
    → ((lift r >> m) s).0 ≡ ok a
    → (lift r >> m) s ≡ m s
behind_lift (ok u) m s a e = refl
behind_lift (err k) m s a e = cc

-- Two steps that succeed together: the second one runs on what the first one left.
behind_step :
    {A : Type 0} (m : Exec (List SocketAddr) WifiError (Unit {0}))
    (k : Exec (List SocketAddr) WifiError A) (s : List SocketAddr) (a : A)
    → ((m >> k) s).0 ≡ ok a
    → ((m s).0 ≡ ok tt) × ((m >> k) s ≡ k (m s).1)
behind_step m k s a h = elim (Result-cases (m s).0) [
  | inl (u, e) ↦ (let goes : (m >> k) s ≡ k (m s).1 = simp e in (e, goes))
  | inr (r, e) ↦ (let fails : ((m >> k) s).0 ≡ err r = simp e in cc)
]

abbrev inserts : List SocketAddr → List SocketAddr → List SocketAddr
inserts [] s = s
inserts (a ∷ endpoints) s = inserts endpoints (insert a s)

inserts-AllAre :
    (e : SocketAddr) (endpoints s : List SocketAddr)
    → AllAre e (inserts endpoints s)
    → AllAre e s × AllAre e endpoints
inserts-AllAre e [] s all = (all, tt)
inserts-AllAre e (a ∷ endpoints) s all =
    let (more, rest) = inserts-AllAre e endpoints (insert a s) all in
    let (before, same) = insert-AllAre e a s more in (before, (same, rest))

inserts-onto :
    (o : Option SocketAddr) (endpoints s : List SocketAddr)
    → inserts endpoints (take_answer o s).1 ≡ inserts (onto o endpoints) s
unfolding record_discovery_candidate
inserts-onto none endpoints s = refl
inserts-onto (some a) endpoints s = refl

verdict-ok : (s : List SocketAddr) (e : SocketAddr) → (verdict s).0 ≡ ok e → s ≡ e ∷ []
unfolding verdict
verdict-ok [] e h = cc
verdict-ok (a ∷ []) e h = ap (λ b. b ∷ []) (ok_injective a e (ok a) refl h)
verdict-ok (a ∷ b ∷ s) e h = cc

module _ (x : Crypto) (query : DiscoveryQuery) (key : Option x.Point) where
  -- The endpoints of the valid answers that come before the deadline, in their order.
  unfoldable pub answers : ℕ → List Pass → List SocketAddr
  answers deadline [] = []
  answers deadline (pass ∷ passes) =
      let rest = answers deadline passes in
      if leb deadline pass.now then [] else onto (answer_of x query key pass.received) rest

  run_pass-take_answer :
      (next_send : ℕ) (pass : Pass) (s : List SocketAddr)
      → (run_pass x query key next_send pass s).0 ≡ ok tt
      → run_pass x query key next_send pass s ≡ take_answer (answer_of x query key pass.received) s
  unfolding run_pass
  run_pass-take_answer next_send pass s e =
      let taking = take_answer (answer_of x query key pass.received) in
      let sent =
        behind_lift (send_due next_send pass) (lift (went_on pass.received) >> taking) s tt e in
      let rest : ((lift (went_on pass.received) >> taking) s).0 ≡ ok tt =
        sym (ap (λ p. p.0) sent) ∙ e in
      sent ∙ behind_lift (went_on pass.received) taking s tt rest

  run_passes-inserts :
      (deadline next_send : ℕ) (passes : List Pass) (s : List SocketAddr)
      → (run_passes x query key deadline next_send passes s).0 ≡ ok tt
      → (run_passes x query key deadline next_send passes s).1 ≡ inserts (answers deadline passes) s
  unfolding run_passes answers
  run_passes-inserts deadline next_send [] s h = refl
  run_passes-inserts deadline next_send (pass ∷ passes) s h =
      let rest = run_passes x query key deadline (next_after next_send pass) passes in
      let both = run_pass x query key next_send pass >> rest in
      let o = answer_of x query key pass.received in
      elim (Bool-cases (leb deadline pass.now)) [
        | inl late ↦
            let stop = ap (λ b. (if b then lift (ok tt) else both) s) late in
            let none_left = ap (λ b. if b then [] else onto o (answers deadline passes)) late in
            ap (λ p. p.1) stop ∙ ap (λ l. inserts l s) (sym none_left)
        | inr early ↦
            let go = ap (λ b. (if b then lift (ok tt) else both) s) early in
            let more = ap (λ b. if b then [] else onto o (answers deadline passes)) early in
            let (first, second) =
              behind_step (run_pass x query key next_send pass) rest s tt
                (sym (ap (λ p. p.0) go) ∙ h) in
            let taken = run_pass-take_answer next_send pass s first in
            let left = (run_pass x query key next_send pass s).1 in
            let ended : (rest left).0 ≡ ok tt = sym (ap (λ p. p.0) (go ∙ second)) ∙ h in
            ap (λ p. p.1) (go ∙ second)
            ∙ (run_passes-inserts deadline (next_after next_send pass) passes left ended
                ∙ (ap (λ p. inserts (answers deadline passes) p.1) taken
                    ∙ (inserts-onto o (answers deadline passes) s
                        ∙ ap (λ l. inserts l s) (sym more))))
      ]

  inserts_first :
      (e : SocketAddr) (endpoints : List SocketAddr)
      → inserts endpoints [] ≡ e ∷ []
      → (rest : List SocketAddr) × (endpoints ≡ e ∷ rest) × AllAre e rest
  inserts_first e [] h = cc
  inserts_first e (a ∷ endpoints) h =
      let (same, rest) =
        (inserts-AllAre e (a ∷ endpoints) [] (subst (AllAre e) (sym h) (refl, tt))).1 in
      (endpoints, ap (λ b. b ∷ endpoints) same, rest)

  -- An endpoint that is found is where a valid answer came from before the deadline, and every valid
  -- answer before the deadline came from there.
  pub discover_with_io-AllAre :
      (deadline : Option ℕ) (started : ℕ) (passes : List Pass) (e : SocketAddr)
      → discover_with_io x query key deadline started passes ≡ ok e
      → (limit : ℕ) × (deadline ≡ some limit)
        × (rest : List SocketAddr) × (answers limit passes ≡ e ∷ rest)
        × AllAre e rest
  unfolding discover_with_io
  discover_with_io-AllAre none started passes e h = cc
  discover_with_io-AllAre (some limit) started passes e h =
      let run = run_passes x query key limit started passes in
      let (first, second) = behind_step run verdict [] e h in
      let last = verdict-ok (run []).1 e (sym (ap (λ p. p.0) second) ∙ h) in
      let (rest, same, all) =
        inserts_first e (answers limit passes)
          (sym (run_passes-inserts limit started passes [] first) ∙ last) in
      (limit, refl, rest, same, all)
