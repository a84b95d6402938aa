-- ===== src/Strategy/Tests.antt =====
-- Runs of the sizing of dhan_cas_bot/strategy.py, and its theorem at a concrete input.
use dhan_bot.Strategy.Median.{tally, MedianOf, select_reference-MedianOf}
use dhan_bot.Strategy.Moves.{IsMove}
use dhan_bot.Strategy.Usable.{IsUsable}
use dhan_bot.Strategy.Sound.{IsLag, find_opportunity-IsLag}
use dhan_bot.Strategy.Final.{IsResidual, find_final_opportunity-IsResidual}
use dhan_bot.Settlement.Final.{validate}
use dhan_bot.Strategy.Residual.{
  find_final_opportunity, residual_in_book, residual_at, residual_limits,
}
use dhan_bot.Strategy.Candidates.{
  insert_price, quantities_to_try, price_candidate, gather, choose, numbered, security_number,
  best_of, Opportunity,
}
use dhan_bot.Domain.{tick, top_ask, top_bid, OptionType, cts_close, IndexObservation}
use dhan_bot.Strategy.Boundary.{
  select_reference, last_five, by_identity, put_observation, is_eligible, made_event, Reference,
  Identity, event_of,
}
use dhan_bot.Strategy.Search.{
  find_opportunity, direction_of, contiguous, in_book, at_limit, lag_limits, worst_intrinsic,
}
use dhan_bot.Strategy.Scenes.{thousand, rise, close_at, before_close, official}
use dhan_bot.Samples.{depth_book, call_option}
use dhan_bot.Prelude.{
  refl, ◌≡◌, ◌≤◌, ◌<◌, ok, true, ℕ, arith, sort_by, insert_by, ◌∷◌, [], List, length, ◌-ℤ◌, All,
  some, map,
}
use dhan_bot.Strategy.Largest.{most_lots-affordable}
use dhan_bot.Strategy.Sizing.{most_lots, search_lots, affordable, intrinsic, permitted_limit}
use dhan_bot.Risk.{
  start, default_fees, worst_case_entry_cash, buy_fees, common_fees, upper, permits, reserve_cash,
  ceil_paise, lifecycle_ceiling, floor_paise, ladder_capacity, conditional_sale_cash, sell_fees,
}
use dhan_bot.Prelude.{ℕ, ◌≡◌, ok, ◌≤◌, ◌<◌, true, false, arith}

-- With 40,000 rupees a lifecycle may spend 10,000, which buys one lot of 75 at 100.05 rupees.
lots_run : most_lots (affordable thousand default_fees 1000500 75 1800) 8 ≡ ok 1
unfolding most_lots search_lots affordable worst_case_entry_cash buy_fees common_fees upper permits
    reserve_cash ceil_paise start lifecycle_ceiling floor_paise
lots_run = refl

most_lots-affordable_example :
    (k : ℕ) × (most_lots (affordable thousand default_fees 1000500 75 1800) 8 ≡ ok k)
    × (k ≤ 8)
    × (0 < k → affordable thousand default_fees 1000500 75 1800 k ≡ ok true)
    × ((j : ℕ) → k < j → j ≤ 8 → affordable thousand default_fees 1000500 75 1800 j ≡ ok false)
most_lots-affordable_example =
    most_lots-affordable thousand default_fees 1000500 75 1800 (omega arith) (omega arith)
      (omega arith) 8

abbrev median_reference : Reference
median_reference = record {
  value = 250;
  boundary_ms = 60000;
  event_ids =
      made_event 50001 1
      ∷ made_event 50002 2
      ∷ made_event 50003 3
      ∷ made_event 50004 4
      ∷ made_event 50005 5
      ∷ [];
  epoch = "e";
}

reference_run : select_reference before_close close_at 0 ≡ ok median_reference
unfolding select_reference last_five by_identity put_observation is_eligible sort_by insert_by
reference_run = refl

-- One lot, priced against the lower of the two values of the rise.
abbrev lag_lot : Opportunity
lag_lot = record {
  instrument = call_option;
  quantity = 75;
  limit_price = 1000500;
  edge = 141527000;
  entry = 75315300;
  reason = "CAS_LAG_V1";
}

lag_run :
    find_opportunity 250000000 rise (depth_book ∷ []) thousand default_fees ≡ ok (some lag_lot)
unfolding find_opportunity find_final_opportunity validate direction_of contiguous in_book at_limit
    lag_limits residual_in_book residual_at residual_limits worst_intrinsic intrinsic
    permitted_limit tick top_ask top_bid insert_price ladder_capacity most_lots search_lots
    affordable worst_case_entry_cash buy_fees common_fees upper permits reserve_cash ceil_paise
    start lifecycle_ceiling floor_paise quantities_to_try price_candidate conditional_sale_cash
    sell_fees gather choose numbered security_number best_of ◌-ℤ◌
lag_run = refl

abbrev residual_lot : Opportunity
residual_lot = record lag_lot { edge = 149013800; reason = "FINAL_RESIDUAL" }

residual_run :
    find_final_opportunity official (depth_book ∷ []) thousand default_fees ≡ ok (some residual_lot)
unfolding find_opportunity find_final_opportunity validate direction_of contiguous in_book at_limit
    lag_limits residual_in_book residual_at residual_limits worst_intrinsic intrinsic
    permitted_limit tick top_ask top_bid insert_price ladder_capacity most_lots search_lots
    affordable worst_case_entry_cash buy_fees common_fees upper permits reserve_cash ceil_paise
    start lifecycle_ceiling floor_paise quantities_to_try price_candidate conditional_sale_cash
    sell_fees gather choose numbered security_number best_of ◌-ℤ◌
residual_run = refl

select_reference-MedianOf_example :
    let r = median_reference in
    (close_at.phase ≡ cts_close)
    × (0 ≤ 100)
    × (r.boundary_ms ≡ close_at.updated_time_ms)
    × (r.epoch ≡ close_at.status_epoch)
    × (five : List IndexObservation) × (length five ≡ 5)
    × All (IsUsable before_close close_at 0) five
    × ((i : Identity) → tally i five ≤ 1)
    × (r.event_ids ≡ map event_of five)
    × MedianOf r.value (map (λ (x : IndexObservation). x.value) five)
select_reference-MedianOf_example =
    select_reference-MedianOf before_close close_at 0 median_reference reference_run

find_opportunity-IsLag_example :
    (d : OptionType) × (values : List ℕ) × IsMove 250000000 d values rise
    × IsLag d values thousand default_fees lag_lot
find_opportunity-IsLag_example =
    find_opportunity-IsLag 250000000 rise (depth_book ∷ []) thousand default_fees lag_lot lag_run

find_final_opportunity-IsResidual_example :
    (validate official ≡ ok tt) × IsResidual official thousand default_fees residual_lot
find_final_opportunity-IsResidual_example =
    find_final_opportunity-IsResidual official (depth_book ∷ []) thousand default_fees residual_lot
      residual_run
