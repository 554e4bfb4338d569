-- ===== src/Mixing/Split.antt =====
-- What `IsMixedSplitTx` of txhelpers/cspp.go tests.
use hdfdata.Mixing.Denominations.{outs_of}
use hdfdata.Mixing.{split_outs, ticket_tx_fee, is_mixed_split_tx}
use hdfdata.Base.{
  ℕ, ◌+◌, ◌≡◌, refl, sym, ap, inl, inr, true, false, ◌&&◌, List, [], ◌∷◌, arith, leb, ◌==◌, ==_iff,
  if◌then◌else◌, Bool-cases, length,
}

split_outs-outs_of :
    (amt : ℕ) (xs : List ℕ) (tickets others : ℕ)
    → ((split_outs amt xs tickets others).0 ≡ tickets + outs_of amt xs)
      × ((split_outs amt xs tickets others).1 + outs_of amt xs ≡ others + length xs)
unfolding split_outs
split_outs-outs_of amt [] tickets others = (omega arith, omega arith)
split_outs-outs_of amt (x ∷ xs) tickets others = elim (Bool-cases (x == amt)) [
  | inl t ↦
      let (a, b) = split_outs-outs_of amt xs (tickets + 1) others in
      rw (split_outs, t) (ground (arith, a, t), ground (arith, b, t))
  | inr f ↦
      let (a, b) = split_outs-outs_of amt xs tickets (others + 1) in
      rw (split_outs, f) (ground (arith, a, f), ground (arith, b, f))
]

module _ (fee_for_ticket : ℕ → ℕ) (default_relay_fee : ℕ) where
  fee_of_relay :
      (relay : ℕ) → ticket_tx_fee fee_for_ticket default_relay_fee relay ≡ fee_for_ticket relay
  unfolding ticket_tx_fee
  fee_of_relay relay = elim (Bool-cases (relay == default_relay_fee)) [
    | inl t ↦ rw (ticket_tx_fee, t) (ap fee_for_ticket (sym ((==_iff relay default_relay_fee).0 t)))
    | inr f ↦ rw (ticket_tx_fee, f) refl
  ]

  -- A transaction is the split of a mix exactly when it has three or more inputs, three or more outputs of the ticket
  -- price and the fee at the relay fee, and three or more others; the test for six outputs adds nothing, nor does the fee
  -- computed beforehand. Then that amount and the number of those outputs are returned, and else zeros.
  pub is_mixed_split_tx-outs_of :
      (tx_out : List ℕ) (num_tx_in relay_fee_rate ticket_price : ℕ)
      → is_mixed_split_tx fee_for_ticket default_relay_fee tx_out num_tx_in relay_fee_rate
          ticket_price
        ≡ (if leb 3 num_tx_in
              && leb 3 (outs_of (ticket_price + fee_for_ticket relay_fee_rate) tx_out)
              && leb
                  (outs_of (ticket_price + fee_for_ticket relay_fee_rate) tx_out + 3)
                  (length tx_out)
            then (
              true,
              ticket_price + fee_for_ticket relay_fee_rate,
              outs_of (ticket_price + fee_for_ticket relay_fee_rate) tx_out,
            )
            else (false, 0, 0))
  unfolding is_mixed_split_tx
  is_mixed_split_tx-outs_of tx_out num_tx_in relay_fee_rate ticket_price =
      let amt : ℕ = ticket_price + fee_for_ticket relay_fee_rate in
      let (tickets, others) = split_outs-outs_of amt tx_out 0 0 in
      rw (is_mixed_split_tx, fee_of_relay relay_fee_rate) (ground (arith, tickets, others))
