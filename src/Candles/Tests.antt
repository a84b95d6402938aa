-- ===== src/Candles/Tests.antt =====
-- Frames with a completed minute, for dhan_cas_bot/stream_minutes.py.
use dhan_bot.Candles.Minutes.{
  reset, Bar, current, accept, Frame, take_rows, holds, bar_of, drop_bar,
}
use dhan_bot.Candles.Clean.{current-IsCandle, IsCandle, accept_all}
use dhan_bot.Prelude.{
  [], ◌∷◌, none, some, refl, List, ◌-◌, ◌%◌, String, true, ℕ, ◌≡◌, false, ◌≤◌, ◌+◌,
}

abbrev rise : Bar
rise = record {
  available = 0;
  open_price = 100;
  close_price = 110;
  volume = 5;
  high = 112;
  low = 99;
}

abbrev frame_of : Bar → Frame
frame_of b = record {
  has_index = true;
  content = some (121000000, record { interval = "I1"; start = some 60000000; bar = some b } ∷ []);
}

abbrev frames : List (Frame × String × ℕ)
frames = (frame_of rise, "e", 122000000) ∷ []

-- A second candle for the minute that says something else takes both away.
abbrev torn : List (Frame × String × ℕ)
torn =
    (frame_of rise, "e", 122000000) ∷ (frame_of (record rise { high = 113 }), "e", 123000000) ∷ []

current_run :
    current 123000000 (accept_all frames reset) ≡ some (record rise { available = 120000000 })
unfolding current accept take_rows bar_of drop_bar
current_run = refl

torn_run : current 124000000 (accept_all torn reset) ≡ none
unfolding current accept take_rows bar_of drop_bar
torn_run = refl

current-IsCandle_example :
    let m = accept_all frames reset in
    IsCandle (123000000 - 123000000 % 60000000) (record rise { available = 120000000 })
    × (holds (123000000 - 123000000 % 60000000) m.conflicts ≡ false)
    × (received : ℕ) × (m.received ≡ some received)
    × (received ≤ 123000000)
    × (123000000 ≤ received + 5000000)
current-IsCandle_example =
    current-IsCandle frames 123000000 (record rise { available = 120000000 }) current_run
