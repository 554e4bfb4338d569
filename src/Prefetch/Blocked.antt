-- ===== src/Prefetch/Blocked.antt =====
-- Where the goroutines of rpcutils/prefetcher.go wait for each other.
use hdfdata.Prefetch.{
  Hash, HashText, Node, BlockPrefetchClient, retarget_hash, retarget_and_unlock, Step, asked,
  retargeted, received, fetched, chan_capacity,
}
use hdfdata.Base.{
  ℕ, ◌≡◌, ◌≤◌, ◌<◌, ◌⊎◌, refl, ap, inl, inr, true, false, none, some, List, [], ◌∷◌, ◌++◌, arith,
  ltb, Bool-cases, Option-cases, length,
}

List-cases : (xs : List Hash) → (xs ≡ []) ⊎ ((x : Hash) × (rest : List Hash) × (xs ≡ x ∷ rest))
List-cases [] = inl refl
List-cases (x ∷ rest) = inr (x, rest, refl)

module _ {Block Header : Type 0} (f : Node Block Header) where
  -- When a caller's goroutine holds the mutex with a hash to send, the channel is full and the fetcher waits for the mutex
  -- with a hash that it has received, no step is left at any time: the client is blocked for good.
  pub client_blocked :
      (now : ℕ) (text : HashText) (sent waits : Hash) (p p' : BlockPrefetchClient Block Header)
      → p.locked_for ≡ some text
      → retarget_hash f text p ≡ some sent
      → chan_capacity ≤ length p.retarget_chan
      → p.taken ≡ some waits
      → ¬ Step f now p p'
  unfolding retarget_and_unlock
  client_blocked now text sent waits p p' held fresh full busy (asked h free e) =
      absurd (ground (arith, held, free))
  client_blocked now text sent waits p p' held fresh full busy (retargeted text' held' e) =
      let same : text ≡ text' = cc in
      let over : ltb (length p.retarget_chan) chan_capacity ≡ false = ground (arith, full) in
      absurd (ground (arith, rw (← same, retarget_and_unlock, fresh, over) at e))
  client_blocked now text sent waits p p' held fresh full busy (received h rest idle there e) =
      absurd (ground (arith, busy, idle))
  client_blocked now text sent waits p p' held fresh full busy (fetched h there free e) =
      absurd (ground (arith, held, free))

  -- With room in the channel, the goroutine that holds the mutex ends.
  goroutine_ends :
      (text : HashText) (p : BlockPrefetchClient Block Header)
      → length p.retarget_chan < chan_capacity
      → (p' : BlockPrefetchClient Block Header) × (retarget_and_unlock f text p ≡ some p')
        × (p'.locked_for ≡ none)
  unfolding retarget_and_unlock
  goroutine_ends text p room = elim (Option-cases (retarget_hash f text p)) [
    | inl none_new ↦ (record p { locked_for = none }, rw (retarget_and_unlock, none_new) refl, refl)
    | inr (h, fresh) ↦
        let space : ltb (length p.retarget_chan) chan_capacity ≡ true = ground (arith, room) in
        (
          record p { retarget_chan = p.retarget_chan ++ h ∷ []; locked_for = none },
          rw (retarget_and_unlock, fresh, space) refl,
          refl,
        )
  ]

  -- A mutex that is held while the channel has at most its capacity, and the fetcher waits for hashes or the channel has
  -- room, is let go: the goroutine that holds it ends, at once or after the fetcher has received a hash.
  pub mutex_released :
      (now : ℕ) (text : HashText) (p : BlockPrefetchClient Block Header)
      → p.locked_for ≡ some text
      → length p.retarget_chan ≤ chan_capacity
      → (p.taken ≡ none) ⊎ (length p.retarget_chan < chan_capacity)
      → (p1 : BlockPrefetchClient Block Header) × (p2 : BlockPrefetchClient Block Header) × ((p1
            ≡ p)
          ⊎ Step f now p p1)
        × Step f now p1 p2
        × (p2.locked_for ≡ none)
  mutex_released now text p held bounded free =
      elim (Bool-cases (ltb (length p.retarget_chan) chan_capacity)) [
        | inl room ↦
            let (p2, ends, unlocked) = goroutine_ends text p (ground (arith, room)) in
            (p, p2, inl refl, retargeted text held ends, unlocked)
        | inr full ↦ elim (List-cases p.retarget_chan) [
          | inl empty ↦ absurd (ground (arith, full, ap length empty))
          | inr (h, rest, first) ↦ elim free [
            | inr room ↦ absurd (ground (arith, full, room))
            | inl idle ↦
                let p1 : BlockPrefetchClient Block Header = record p {
                  retarget_chan = rest;
                  taken = some h;
                } in
                let shorter : length rest < chan_capacity =
                  omega (arith, bounded, ap length first) in
                let (p2, ends, unlocked) = goroutine_ends text p1 shorter in
                (p1, p2, inr (received h rest idle first refl), retargeted text held ends, unlocked)
          ]
        ]
      ]
