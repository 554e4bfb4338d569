-- ===== src/Mixing.antt =====
-- txhelpers/cspp.go: whether a transaction is a mix, or the split of one. A transaction is the values of its outputs and
-- the number of its inputs; values are not negative. Go visits a map in any order, which is a parameter. The fee of
-- a ticket at a relay fee, which txrules and txsizes compute, is a parameter, with the default relay fee.
use hdfdata.Base.{
  ℕ, suc, ◌+◌, ◌/◌, ◌^◌, Bool, true, false, ◌||◌, Option, none, some, List, [], ◌∷◌, ltb, leb, ◌==◌,
  if◌then◌else◌, length, member, Dict, find, put, keys, weight,
}
pub mod Denominations
pub mod Split
mod Tests

-- `splitPoints`, from large to small.
abbrev pub split_points : List ℕ
split_points =
    2 ^ 36 ∷ 2 ^ 34 ∷ 2 ^ 32 ∷ 2 ^ 30 ∷ 2 ^ 28 ∷ 2 ^ 26 ∷ 2 ^ 24 ∷ 2 ^ 22 ∷ 2 ^ 20 ∷ 2 ^ 18 ∷ []

-- Whether a value is in `splitPointMap`.
unfoldable pub in_split_point_map : ℕ → Bool
in_split_point_map v = member v split_points

abbrev pub VisitOrder : Type 0
VisitOrder = List ℕ → List ℕ

-- An entry of a map of counts, 0 for one that is not there.
abbrev pub count_at : ℕ → Dict ℕ → ℕ
count_at v counts = weight (λ n. n) (find v counts)

-- The loop over the outputs, which counts those of a denomination.
unfoldable pub mixed_outs : List ℕ → Dict ℕ → Dict ℕ
mixed_outs [] counts = counts
mixed_outs (v ∷ vs) counts =
    let counted = mixed_outs vs (put v (count_at v counts + 1) counts) in
    let passed = mixed_outs vs counts in if in_split_point_map v then counted else passed

-- The loop over the counts, at the largest denomination so far and its count.
unfoldable pub largest_mix : Dict ℕ → List ℕ → ℕ → ℕ → ℕ × ℕ
largest_mix counts [] mix_denom mix_count = (mix_denom, mix_count)
largest_mix counts (v ∷ vs) mix_denom mix_count =
    let passed = largest_mix counts vs mix_denom mix_count in
    let taken = largest_mix counts vs v (count_at v counts) in
    if ltb (count_at v counts) 3 then passed else if ltb mix_denom v then taken else passed

unfoldable pub is_mix_tx : VisitOrder → List ℕ → ℕ → Bool × ℕ × ℕ
is_mix_tx order tx_out num_tx_in =
    if ltb (length tx_out) 3 || ltb num_tx_in 3
    then (false, 0, 0)
    else let counts = mixed_outs tx_out [] in
      let (mix_denom, mix_count) = largest_mix counts (order (keys counts)) 0 0 in
      (leb (length tx_out / 2) mix_count, mix_denom, mix_count)

-- The loop over the outputs, which counts those of an amount and the others.
unfoldable pub split_outs : ℕ → List ℕ → ℕ → ℕ → ℕ × ℕ
split_outs ticket_out_amt [] num_tickets num_other_out = (num_tickets, num_other_out)
split_outs ticket_out_amt (v ∷ vs) num_tickets num_other_out =
    let ticket = split_outs ticket_out_amt vs (num_tickets + 1) num_other_out in
    let other = split_outs ticket_out_amt vs num_tickets (num_other_out + 1) in
    if v == ticket_out_amt then ticket else other

module _ (fee_for_ticket : ℕ → ℕ) (default_relay_fee : ℕ) where
  unfoldable pub ticket_tx_fee : ℕ → ℕ
  ticket_tx_fee relay_fee_rate =
      if relay_fee_rate == default_relay_fee
      then fee_for_ticket default_relay_fee
      else fee_for_ticket relay_fee_rate

  unfoldable pub is_mixed_split_tx : List ℕ → ℕ → ℕ → ℕ → Bool × ℕ × ℕ
  is_mixed_split_tx tx_out num_tx_in relay_fee_rate ticket_price =
      if ltb (length tx_out) 6 || ltb num_tx_in 3
      then (false, 0, 0)
      else let ticket_out_amt : ℕ = ticket_price + ticket_tx_fee relay_fee_rate in
        let (num_tickets, num_other_out) = split_outs ticket_out_amt tx_out 0 0 in
        if ltb num_tickets 3 || ltb num_other_out 3
        then (false, 0, 0)
        else (true, ticket_out_amt, num_tickets)
