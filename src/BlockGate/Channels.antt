-- ===== src/BlockGate/Channels.antt =====
-- The wait channels of rpcutils/blockgate.go: who waits for what, and what is sent.
use mathlib.Core.List.{map-append, append-nil}
use hdfdata.Base.{
  ℕ, ◌≡◌, ◌<◌, ◌↔◌, refl, sym, ◌∙◌, ap, inl, inr, Bool, true, false, none, List, [], ◌∷◌, ◌++◌, map,
  arith, ◌==◌, if◌then◌else◌, Bool-cases, Option-cases, member, Distinct,
}
use hdfdata.BlockGate.Maps.{set, unset}
use hdfdata.BlockGate.{Chan, Waiters, chans_at, no_waiters, register, signal}

member-append :
    (c : ℕ) (xs ys : List ℕ) → member c (xs ++ ys) ≡ (if member c xs then true else member c ys)
member-append c [] ys = refl
member-append c (x ∷ xs) ys = ground (arith, member-append c xs ys)

Distinct-append :
    (xs ys : List ℕ)
    → Distinct xs
    → Distinct ys
    → ((c : ℕ) → member c ys ≡ true → member c xs ≡ false)
    → Distinct (xs ++ ys)
Distinct-append [] ys d e apart = e
Distinct-append (x ∷ xs) ys d e apart = (
  elim (Bool-cases (member x ys)) [
    | inl t ↦ absurd (ground (arith, apart x t))
    | inr f ↦ ground (arith, member-append x xs ys)
  ],
  Distinct-append xs ys d.1 e (λ c m. ground (arith, apart c m)),
)

module _ {K V : Type 0} where
  -- The channels that wait for a key, and those that were sent to.
  abbrev pub waiting_at : Waiters K V → K → List Chan
  waiting_at ws k = chans_at (ws.waiting k)

  abbrev pub sent : Waiters K V → List Chan
  sent ws = map (λ s. s.0) ws.sends

  -- A channel that waits was made, waits for one key, once, and was not sent to; no channel was sent
  -- to twice.
  pub record IsSound (ws : Waiters K V) : Type 0 where
    pub waiting_made : (k : K) (c : Chan) → member c (waiting_at ws k) ≡ true → c < ws.made
    pub sent_made : (c : Chan) → member c (sent ws) ≡ true → c < ws.made
    pub waiting_unsent :
        (k : K) (c : Chan) → member c (waiting_at ws k) ≡ true → member c (sent ws) ≡ false
    pub one_key :
        (k j : K) (c : Chan)
        → member c (waiting_at ws k) ≡ true
        → member c (waiting_at ws j) ≡ true
        → k ≡ j
    pub waiting_once : (k : K) → Distinct (waiting_at ws k)
    pub sent_once : Distinct (sent ws)

  pub no_waiters-IsSound : IsSound no_waiters
  unfolding no_waiters
  no_waiters-IsSound = record {
    waiting_made = λ k c m. absurd (ground arith);
    sent_made = λ c m. absurd (ground arith);
    waiting_unsent = λ k c m. refl;
    one_key = λ k j c m n. absurd (ground arith);
    waiting_once = λ k. tt;
    sent_once = tt;
  }

  module _ (same : K → K → Bool) (same_iff : (a b : K) → (same a b ≡ true) ↔ (a ≡ b)) where
    pub waiting_at-register :
        (k j : K) (ws : Waiters K V)
        → waiting_at (register same k ws) j
          ≡ (if same j k then waiting_at ws k ++ ws.made ∷ [] else waiting_at ws j)
    unfolding register set
    waiting_at-register k j ws = elim (Bool-cases (same j k)) [
      | inl t ↦ rw (t, register, set) refl
      | inr f ↦ rw (f, register, set) refl
    ]

    member-register :
        (k j : K) (c : Chan) (ws : Waiters K V)
        → member c (waiting_at (register same k ws) j)
          ≡ (if member c (waiting_at ws j) then true else if same j k then c == ws.made else false)
    member-register k j c ws = elim (Bool-cases (same j k)) [
      | inl t ↦
          let e : j ≡ k = (same_iff j k).0 t in
          ap (member c) (waiting_at-register k j ws)
          ∙ rw (t, e) (ground (arith, member-append c (waiting_at ws k) (ws.made ∷ [])))
      | inr f ↦ ap (member c) (waiting_at-register k j ws) ∙ rw f (ground arith)
    ]

    pub waiting_at-signal :
        (k j : K) (v : V) (ws : Waiters K V)
        → waiting_at (signal same k v ws) j ≡ (if same j k then [] else waiting_at ws j)
    unfolding signal unset
    waiting_at-signal k j v ws = elim (Bool-cases (same j k)) [
      | inl t ↦
          let e : j ≡ k = (same_iff j k).0 t in
          elim (Option-cases (ws.waiting k)) [
            | inl n ↦ let n' : ws.waiting j ≡ none = rw e n in rw (signal, n, t, n') refl
            | inr (cs, y) ↦ rw (signal, y, unset, t) refl
          ]
      | inr f ↦ elim (Option-cases (ws.waiting k)) [
        | inl n ↦ rw (signal, n, f) refl
        | inr (cs, y) ↦ rw (signal, y, unset, f) refl
      ]
    ]

    pub sends-signal :
        (k : K) (v : V) (ws : Waiters K V)
        → (signal same k v ws).sends ≡ ws.sends ++ map (λ c. (c, v)) (waiting_at ws k)
    unfolding signal
    sends-signal k v ws = elim (Option-cases (ws.waiting k)) [
      | inl n ↦ rw (signal, n) (sym (append-nil ws.sends))
      | inr (cs, y) ↦ rw (signal, y) refl
    ]

    firsts : (v : V) (cs : List Chan) → map (λ (s : Chan × V). s.0) (map (λ c. (c, v)) cs) ≡ cs
    firsts v [] = refl
    firsts v (c ∷ cs) = ap (◌∷◌ c) (firsts v cs)

    sent-signal :
        (k : K) (v : V) (ws : Waiters K V) → sent (signal same k v ws) ≡ sent ws ++ waiting_at ws k
    sent-signal k v ws =
        ap (map (λ s. s.0)) (sends-signal k v ws)
        ∙ map-append (λ s. s.0) ws.sends (map (λ c. (c, v)) (waiting_at ws k))
        ∙ ap (λ cs. sent ws ++ cs) (firsts v (waiting_at ws k))

    made-signal : (k : K) (v : V) (ws : Waiters K V) → (signal same k v ws).made ≡ ws.made
    unfolding signal
    made-signal k v ws = ground arith

    -- A channel that was just made is nowhere yet.
    made_fresh : (k : K) (ws : Waiters K V) → IsSound ws → member ws.made (waiting_at ws k) ≡ false
    made_fresh k ws s = elim (Bool-cases (member ws.made (waiting_at ws k))) [
      | inl t ↦ absurd (omega (arith, s.waiting_made k ws.made t))
      | inr f ↦ f
    ]

    made_unsent : (ws : Waiters K V) → IsSound ws → member ws.made (sent ws) ≡ false
    made_unsent ws s = elim (Bool-cases (member ws.made (sent ws))) [
      | inl t ↦ absurd (omega (arith, s.sent_made ws.made t))
      | inr f ↦ f
    ]

    pub register-IsSound : (k : K) (ws : Waiters K V) → IsSound ws → IsSound (register same k ws)
    unfolding register
    register-IsSound k ws s = record {
      waiting_made = λ j c m. ground (arith, member-register k j c ws, s.waiting_made j c);
      sent_made = λ c m. omega (arith, s.sent_made c m);
      waiting_unsent =
          λ j c m. ground (arith, member-register k j c ws, s.waiting_unsent j c, made_unsent ws s);
      one_key = λ i j c m n. ground (
        arith,
        member-register k i c ws,
        member-register k j c ws,
        made_fresh i ws s,
        made_fresh j ws s,
        s.one_key i j c,
        same_iff i k,
        same_iff j k,
      );
      waiting_once = λ j. elim (Bool-cases (same j k)) [
        | inl t ↦
            rw (waiting_at-register k j ws, t)
              (Distinct-append (waiting_at ws k) (ws.made ∷ []) (s.waiting_once k) (refl, tt)
                (λ c m. ground (arith, made_fresh k ws s)))
        | inr f ↦ rw (waiting_at-register k j ws, f) (s.waiting_once j)
      ];
      sent_once = s.sent_once;
    }

    -- What still waits after a signal waited before, for another key.
    still_waiting :
        (k j : K) (v : V) (c : Chan) (ws : Waiters K V)
        → member c (waiting_at (signal same k v ws) j) ≡ true
        → (member c (waiting_at ws j) ≡ true) × (same j k ≡ false)
    still_waiting k j v c ws m = elim (Bool-cases (same j k)) [
      | inl t ↦
          let gone : waiting_at (signal same k v ws) j ≡ [] =
            waiting_at-signal k j v ws ∙ ap (λ t. if t then [] else waiting_at ws j) t in
          absurd (ground (arith, gone))
      | inr f ↦
          let kept : waiting_at (signal same k v ws) j ≡ waiting_at ws j =
            waiting_at-signal k j v ws ∙ ap (λ t. if t then [] else waiting_at ws j) f in
          (ground (arith, kept), f)
    ]

    member-sent-signal :
        (k : K) (v : V) (c : Chan) (ws : Waiters K V)
        → member c (sent (signal same k v ws))
          ≡ (if member c (sent ws) then true else member c (waiting_at ws k))
    member-sent-signal k v c ws =
        ap (member c) (sent-signal k v ws) ∙ member-append c (sent ws) (waiting_at ws k)

    pub signal-IsSound :
        (k : K) (v : V) (ws : Waiters K V) → IsSound ws → IsSound (signal same k v ws)
    signal-IsSound k v ws s = record {
      waiting_made =
          λ j c m. rw (made-signal k v ws) (s.waiting_made j c (still_waiting k j v c ws m).0);
      sent_made = λ c m.
          rw (made-signal k v ws)
            (ground (arith, member-sent-signal k v c ws, s.sent_made c, s.waiting_made k c));
      waiting_unsent = λ j c m.
          let (w, d) = still_waiting k j v c ws m in
          ground (
            arith,
            member-sent-signal k v c ws,
            s.waiting_unsent j c w,
            s.one_key j k c w,
            same_iff j k,
            d,
          );
      one_key = λ i j c m n.
          s.one_key i j c (still_waiting k i v c ws m).0 (still_waiting k j v c ws n).0;
      waiting_once = λ j. elim (Bool-cases (same j k)) [
        | inl t ↦ rw (waiting_at-signal k j v ws, t) tt
        | inr f ↦ rw (waiting_at-signal k j v ws, f) (s.waiting_once j)
      ];
      sent_once = rw (sent-signal k v ws) (
          Distinct-append (sent ws) (waiting_at ws k) s.sent_once (s.waiting_once k)
            (s.waiting_unsent k));
    }
