-- ===== src/Engine/LeaveTests.antt =====
-- Runs of the decisions of `cycle` in dhan_cas_bot/engine.py, and the theorems at concrete inputs.
use dhan_bot.Engine.Ladder.{sold}
use dhan_bot.Strategy.{children_of, child_of}
use dhan_bot.Exits.{executable_sale_units, sale_slices}
use dhan_bot.Domain.{ce, top_bid, top_ask}
use dhan_bot.Risk.{sell_fees, common_fees, upper}
use dhan_bot.Strategy.Scenes.{rise}
use dhan_bot.Runtime.{position_open}
use dhan_bot.Engine.Signals.{signal_reconnect}
use dhan_bot.Samples.{call_option, depth_book}
use dhan_bot.Engine.Scenes.{collecting, ready, plain}
use dhan_bot.Ledger.{LifecycleRow, lookup}
use dhan_bot.Engine.State.{Session}
use dhan_bot.Engine.Leave.{
  Peaks, decide, final_move, sell_units, state_reason, best_units, await_settlement, better_units,
  price_reason, net_value, ladder_of,
}
use dhan_bot.Engine.Quiet.{decide-holds_iff, IsHeld}
use dhan_bot.Engine.Leaving.{Follows-keeps_leaving, IsLasting, unmoved, called}
use dhan_bot.Engine.Reached.{signal_lost}
use dhan_bot.Engine.Held.{final_move-IsNoWorse, IsNoWorse}
use dhan_bot.Strategy.{intrinsic}
use dhan_bot.Prelude.{
  [], none, ◌∷◌, refl, ◌≡◌, ℤ, pos, false, ◌<ℤ◌, ◌*◌, some, ok, ℕ, ◌≢◌, min, ◌<◌, String, All, ◌≤◌,
  arith, eq_iff, ◌↔◌, List,
}

abbrev no_peaks : Peaks
no_peaks = record { bid = 0; intrinsic = 0; exit = "" }

abbrev row : LifecycleRow
row = record {
  lifecycle_id = "l1";
  session_id = "2025-10-14";
  security_id = "45001";
  bankroll = pos 300000000;
  is_closed = false;
}

-- A streak of two and a book that lags.
abbrev lagging : Session
lagging = record collecting {
  books = ("45001", depth_book) ∷ [];
  observations = rise;
  streaks = ("45001", rise) ∷ [];
}

abbrev held : Session
held = record lagging {
  peak_intrinsic = 3000000;
  peak_bid = 999500;
  runtime = record ready { state = position_open };
}

held_run : decide "2025-10-14" no_peaks row call_option 55500000000 lagging ≡ ok ("", held)
unfolding decide state_reason price_reason lookup intrinsic sell_fees common_fees upper top_bid
    top_ask
held_run = refl

decide-holds_iff_example :
    ((e' : Session) × (decide "2025-10-14" no_peaks row call_option 55500000000 lagging
        ≡ ok ("", e'))
      × (e'.runtime.state ≡ position_open))
    ↔ IsHeld "2025-10-14" no_peaks row call_option 55500000000 lagging
decide-holds_iff_example =
    decide-holds_iff "2025-10-14" no_peaks row call_option 55500000000 lagging

abbrev leaving : Session
leaving = record lagging { exit_reason = "FINAL_VALUE_REVISED" }

abbrev left : Session
left = record leaving {
  peak_intrinsic = 3000000;
  peak_bid = 999500;
  runtime = record ready { reason = "FINAL_VALUE_REVISED" };
}

left_run :
    decide "2025-10-14" no_peaks row call_option 56400000000 leaving
    ≡ ok ("FINAL_VALUE_REVISED", left)
unfolding decide state_reason price_reason lookup intrinsic sell_fees common_fees upper top_bid
    top_ask
left_run = refl

-- The signal is lost and comes back, and the position is still left.
abbrev back : Session
back = signal_reconnect (some "7") leaving

abbrev left_later : Session
left_later = record back {
  exit_reason = "FINAL_VALUE_REVISED";
  runtime = record back.runtime { reason = "FINAL_VALUE_REVISED" };
}

back_run :
    decide "2025-10-14" no_peaks row call_option 55500000000 back
    ≡ ok ("FINAL_VALUE_REVISED", left_later)
unfolding decide state_reason price_reason lookup intrinsic sell_fees common_fees upper top_bid
    top_ask signal_reconnect
back_run = refl

Follows-keeps_leaving_example :
    (left_later.exit_reason ≢ "")
    × IsLasting leaving.exit_reason left_later.exit_reason
    × (left_later.exit_reason ≡ left_later.exit_reason)
Follows-keeps_leaving_example =
    Follows-keeps_leaving plain "2025-10-14" no_peaks row call_option 55500000000
      left_later.exit_reason left_later (called (unmoved leaving) (signal_lost (some "7") leaving))
      (λ k. ground (arith, (eq_iff leaving.exit_reason "").1 k)) back_run

abbrev unforced : String
unforced = ""

-- With the index 50 rupees above the strike, 150 units sell for more than their exercise would bring.
move_run : final_move call_option 250500000 (some depth_book) 150 unforced ≡ ok (sell_units 150)
unfolding final_move best_units better_units net_value intrinsic executable_sale_units sale_slices
    sell_fees common_fees upper
move_run = refl

big_bids : All (λ (s : ℕ × ℕ). call_option.lot_size ≤ s.0) (ladder_of (some depth_book) 150)
unfolding executable_sale_units sale_slices
big_bids = ground arith

final_move-IsNoWorse_example :
    ((credit : ℤ)
      → sell_units 150 ≡ await_settlement credit
      → (pos 0 <ℤ credit)
        × (unforced ≡ "")
        × (net_value
              (intrinsic ce 250000000 250500000 * 150)
              (children_of 150 (child_of call_option))
            ≡ ok credit)
        × (best_units call_option
              (intrinsic ce 250000000 250500000)
              (ladder_of (some depth_book) 150)
              0
              0
              0
            ≡ ok 0))
    × ((n : ℕ)
        → sell_units 150 ≡ sell_units n
        → (unforced ≡ "")
          × (some depth_book ≢ none)
          × (units : ℕ) × (n ≡ min units 150)
          × (0 < units)
          × IsNoWorse call_option
              (intrinsic ce 250000000 250500000)
              (ladder_of (some depth_book) 150)
              units)
final_move-IsNoWorse_example =
    final_move-IsNoWorse call_option 250500000 (some depth_book) 150 unforced (sell_units 150)
      big_bids move_run

-- Slices that are no whole lots: the loop values 75 units at 9750 rupees, where the bids pay 7500.
abbrev ragged : List (ℕ × ℕ)
ragged = (100, 1000000) ∷ (40, 100000) ∷ []

ragged_run : best_units call_option 1200000 ragged 0 0 0 ≡ ok 75
unfolding best_units better_units net_value sell_fees common_fees upper
ragged_run = refl

ragged-sold : (sold 75 ragged ≡ 75000000) × (sold 75 ragged < 1200000 * 75)
ragged-sold = (refl, omega arith)
