-- ===== src/Mixing/Tests.antt =====
-- Transactions for txhelpers/cspp.go, and its theorems there.
use hdfdata.Mixing.Denominations.{mixed_outs_of, outs_of, is_mix_tx-largest}
use hdfdata.Mixing.Split.{is_mixed_split_tx-outs_of}
use hdfdata.Mixing.{
  in_split_point_map, mixed_outs, largest_mix, is_mix_tx, split_outs, ticket_tx_fee,
  is_mixed_split_tx,
}
use hdfdata.Base.{
  ℕ, ◌+◌, ◌/◌, ◌^◌, ◌≡◌, ◌≤◌, ◌⊎◌, refl, true, false, ◌&&◌, List, [], ◌∷◌, arith, leb,
  if◌then◌else◌,
}

-- Three outputs of one denomination, four of a smaller one and a change output.
abbrev mixed : List ℕ
mixed = 2 ^ 18 ∷ 2 ^ 20 ∷ 2 ^ 18 ∷ 2 ^ 20 ∷ 2 ^ 18 ∷ 2 ^ 20 ∷ 2 ^ 18 ∷ 12345 ∷ []

-- The larger denomination is returned, although it has fewer than half of the outputs.
not_a_mix : is_mix_tx (λ ks. ks) mixed 3 ≡ (false, 2 ^ 20, 3)
unfolding is_mix_tx mixed_outs largest_mix in_split_point_map
not_a_mix = refl

is_mix_tx-largest_example :
    (mix_denom : ℕ) × (mix_count : ℕ) × (is_mix_tx (λ ks. ks) mixed 3
      ≡ (leb 4 mix_count, mix_denom, mix_count))
    × ((v : ℕ) → 3 ≤ mixed_outs_of v mixed → v ≤ mix_denom)
    × (((mix_denom ≡ 0) × (mix_count ≡ 0))
        ⊎ ((3 ≤ mixed_outs_of mix_denom mixed) × (mix_count ≡ mixed_outs_of mix_denom mixed)))
is_mix_tx-largest_example =
    is_mix_tx-largest (λ ks. ks) mixed 3 (λ ks k. refl) (omega arith) (omega arith)

abbrev split : List ℕ
split = 1050 ∷ 1050 ∷ 7 ∷ 1050 ∷ 8 ∷ 1050 ∷ 9 ∷ []

-- Four ticket outputs and three others are a split.
four_tickets : is_mixed_split_tx (λ relay. relay / 2) 10 split 3 100 1000 ≡ (true, 1050, 4)
unfolding is_mixed_split_tx split_outs ticket_tx_fee
four_tickets = refl

is_mixed_split_tx-outs_of_example : is_mixed_split_tx (λ relay. relay / 2) 10 split 3 100 1000 ≡ (
    if leb 3 3
      && leb 3 (outs_of (1000 + 100 / 2) split)
      && leb (outs_of (1000 + 100 / 2) split + 3) 7
    then (true, 1000 + 100 / 2, outs_of (1000 + 100 / 2) split)
    else (false, 0, 0))
is_mixed_split_tx-outs_of_example =
    is_mixed_split_tx-outs_of (λ relay. relay / 2) 10 split 3 100 1000
