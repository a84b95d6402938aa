-- ===== src/Candles/Clean.antt =====
-- What the candles of dhan_cas_bot/stream_minutes.py are after any frames.
use dhan_bot.Candles.Minutes.{
  accept, current, take_rows, Minutes, drop_bar, bar_of, Frame, Bar, of_epoch, Candle, bar_at,
  take_content, holds, same_epoch, reset, put_bar, within_seconds, put_beside, same_bar, is_recent,
  current_at, take_row,
}
use dhan_bot.Prelude.{
  [], ◌∷◌, none, refl, String, Option, List, ℕ, Bool-cases, Bool, inl, ◌≡◌, str_eq, ◌==◌, All,
  select, inr, false, ◌<◌, some, ◌-◌, ◌≤◌, arith, ◌%◌, ◌+◌, true,
}

-- A candle of a whole minute with consistent prices.
abbrev pub IsCandle : ℕ → Bar → Type 0
IsCandle t b =
    (b.available ≡ t)
    × (0 < b.low)
    × (b.low ≤ b.open_price)
    × (b.low ≤ b.close_price)
    × (b.open_price ≤ b.high)
    × (b.close_price ≤ b.high)

abbrev pub RowsClean : List ℕ → List (ℕ × Bar) → Type 0
RowsClean conflicts rows =
    All (λ (p : ℕ × Bar). IsCandle p.0 p.1 × (holds p.0 conflicts ≡ false)) rows

abbrev pub IsClean : Minutes → Type 0
IsClean m = RowsClean m.conflicts m.rows

bar_at-IsCandle :
    (stamp received : ℕ) (start : Option ℕ) (raw : Option Bar) (b : Bar)
    → bar_at stamp received start raw ≡ some b
    → IsCandle b.available b
bar_at-IsCandle stamp received none raw b h = absurd (ground (arith, h))
bar_at-IsCandle stamp received (some start) none b h = absurd (ground (arith, h))
bar_at-IsCandle stamp received (some start) (some raw) b h =
    (refl, ground arith, ground arith, ground arith, ground arith, ground arith)

drop_bar-RowsClean :
    (t : ℕ) (conflicts : List ℕ) (rows : List (ℕ × Bar))
    → RowsClean conflicts rows
    → RowsClean (t ∷ conflicts) (drop_bar t rows)
unfolding drop_bar
drop_bar-RowsClean t conflicts [] h = tt
drop_bar-RowsClean t conflicts ((u, b) ∷ rows) h = elim (Bool-cases (u == t)) [
  | inl gone ↦ rw gone (drop_bar-RowsClean t conflicts rows h.1)
  | inr kept ↦
      rw kept ((h.0.0, ground (arith, h.0.1, kept)), drop_bar-RowsClean t conflicts rows h.1)
]

put_beside-IsClean :
    (old : Option Bar) (b : Bar) (received : ℕ) (s : Bool × Minutes)
    → IsCandle b.available b
    → holds b.available s.1.conflicts ≡ false
    → IsClean s.1
    → IsClean (put_beside old b received s).1
put_beside-IsClean none b received (changed, m) good free h = ((good, free), h)
put_beside-IsClean (some old) b received (changed, m) good free h =
    elim (Bool-cases (same_bar old b)) [
      | inl same ↦ rw same h
      | inr other ↦ rw other (drop_bar-RowsClean b.available m.conflicts m.rows h)
    ]

put_bar-IsClean :
    (o : Option Bar) (received : ℕ) (s : Bool × Minutes)
    → ((b : Bar) → o ≡ some b → IsCandle b.available b)
    → IsClean s.1
    → IsClean (put_bar o received s).1
put_bar-IsClean none received (changed, m) good h = h
put_bar-IsClean (some b) received (changed, m) good h =
    elim (Bool-cases (holds b.available m.conflicts)) [
      | inl torn ↦ rw torn h
      | inr free ↦ rw free (
          put_beside-IsClean (bar_of b.available m.rows) b received (changed, m) (good b refl) free
            h)
    ]

take_row-IsClean :
    (stamp received : ℕ) (c : Candle) (s : Bool × Minutes)
    → IsClean s.1
    → IsClean (take_row stamp received c s).1
take_row-IsClean stamp received c s h = elim (Bool-cases (str_eq c.interval "I1")) [
  | inl minute ↦ rw minute (
      put_bar-IsClean (bar_at stamp received c.start c.bar) received s
        (λ b e. bar_at-IsCandle stamp received c.start c.bar b e) h)
  | inr other ↦ rw other h
]

take_rows-IsClean :
    (stamp received : ℕ) (cs : List Candle) (s : Bool × Minutes)
    → IsClean s.1
    → IsClean (take_rows stamp received cs s).1
unfolding take_rows
take_rows-IsClean stamp received [] s h = h
take_rows-IsClean stamp received (c ∷ cs) s h =
    take_rows-IsClean stamp received cs (take_row stamp received c s)
      (take_row-IsClean stamp received c s h)

holds-select :
    (p : ℕ → Bool) (t : ℕ) (ts : List ℕ) → holds t ts ≡ false → holds t (select p ts) ≡ false
holds-select p t [] h = refl
holds-select p t (u ∷ us) h = elim (Bool-cases (p u)) [
  | inl kept ↦ rw kept (ground (arith, h, holds-select p t us (ground (arith, h))))
  | inr gone ↦ rw gone (holds-select p t us (ground (arith, h)))
]

prune-RowsClean :
    (p : ℕ → Bool) (q : ℕ × Bar → Bool) (conflicts : List ℕ) (rows : List (ℕ × Bar))
    → RowsClean conflicts rows
    → RowsClean (select p conflicts) (select q rows)
prune-RowsClean p q conflicts [] h = tt
prune-RowsClean p q conflicts (r ∷ rows) h = elim (Bool-cases (q r)) [
  | inl kept ↦
      rw kept ((h.0.0, holds-select p r.0 conflicts h.0.1), prune-RowsClean p q conflicts rows h.1)
  | inr gone ↦ rw gone (prune-RowsClean p q conflicts rows h.1)
]

of_epoch-IsClean : (epoch : String) (m : Minutes) → IsClean m → IsClean (of_epoch epoch m)
of_epoch-IsClean epoch m h = elim (Bool-cases (same_epoch m.epoch epoch)) [
  | inl same ↦ rw same h
  | inr new ↦ rw new tt
]

take_content-IsClean :
    (content : Option (ℕ × List Candle)) (epoch : String) (received : ℕ) (m : Minutes)
    → IsClean m
    → IsClean (take_content content epoch received m).1
take_content-IsClean none epoch received m h = h
take_content-IsClean (some (stamp, rows)) epoch received m h =
    elim (Bool-cases (within_seconds 5 received stamp)) [
      | inr late ↦ rw late h
      | inl timely ↦
          let m' = (take_rows stamp received rows (false, of_epoch epoch m)).1 in
          rw timely (
            prune-RowsClean (λ t. is_recent received t) (λ p. is_recent received p.0) m'.conflicts
              m'.rows
              (take_rows-IsClean stamp received rows (false, of_epoch epoch m)
                (of_epoch-IsClean epoch m h)))
    ]

accept-IsClean :
    (f : Frame) (epoch : String) (received : ℕ) (m : Minutes)
    → IsClean m
    → IsClean (accept f epoch received m).1
unfolding accept
accept-IsClean f epoch received m h = elim (Bool-cases f.has_index) [
  | inl index ↦ rw index (take_content-IsClean f.content epoch received m h)
  | inr other ↦ rw other h
]

-- Frames one after the other, each with the epoch and the time of its reception.
abbrev pub accept_all : List (Frame × String × ℕ) → Minutes → Minutes
accept_all [] m = m
accept_all ((f, epoch, received) ∷ fs) m = accept_all fs (accept f epoch received m).1

accept_all-IsClean :
    (fs : List (Frame × String × ℕ)) (m : Minutes) → IsClean m → IsClean (accept_all fs m)
accept_all-IsClean [] m h = h
accept_all-IsClean ((f, epoch, received) ∷ fs) m h =
    accept_all-IsClean fs (accept f epoch received m).1 (accept-IsClean f epoch received m h)

bar_of-RowsClean :
    (t : ℕ) (conflicts : List ℕ) (rows : List (ℕ × Bar)) (b : Bar)
    → RowsClean conflicts rows
    → bar_of t rows ≡ some b
    → IsCandle t b × (holds t conflicts ≡ false)
unfolding bar_of
bar_of-RowsClean t conflicts [] b h e = absurd (ground (arith, e))
bar_of-RowsClean t conflicts ((u, c) ∷ rows) b h e = elim (Bool-cases (u == t)) [
  | inl here ↦
      let found = rw here at e in
      let same_time : u ≡ t = ground (arith, here) in
      let same : c ≡ b = ground (arith, found) in rw (← same_time, ← same) h.0
  | inr there ↦ bar_of-RowsClean t conflicts rows b h.1 (rw there at e)
]

received_lately :
    (m : Minutes)
    → IsClean m
    → (now : ℕ) (b : Bar) (r : Option ℕ) → m.received ≡ r
    → current_at r now m ≡ some b
    → IsCandle (now - now % 60000000) b
      × (holds (now - now % 60000000) m.conflicts ≡ false)
      × (received : ℕ) × (m.received ≡ some received)
      × (received ≤ now)
      × (now ≤ received + 5000000)
received_lately m clean now b none e k = absurd (ground (arith, k))
received_lately m clean now b (some received) e k =
    elim (Bool-cases (within_seconds 5 now received)) [
      | inl lately ↦
          let (candle, alone) =
            bar_of-RowsClean (now - now % 60000000) m.conflicts m.rows b clean (rw lately at k) in
          let (after, before) = window now received lately in
          (candle, alone, received, e, after, before)
      | inr old ↦ absurd (let d = rw old at k in ground (arith, d))
    ]
  where
    window :
        (now received : ℕ)
        → within_seconds 5 now received ≡ true
        → (received ≤ now) × (now ≤ received + 5000000)
    window now received h = (ground arith, ground arith)

pub current-IsCandle :
    (fs : List (Frame × String × ℕ)) (now : ℕ) (b : Bar)
    → let m = accept_all fs reset in
      current now m ≡ some b
      → IsCandle (now - now % 60000000) b
        × (holds (now - now % 60000000) m.conflicts ≡ false)
        × (received : ℕ) × (m.received ≡ some received)
        × (received ≤ now)
        × (now ≤ received + 5000000)
unfolding current
current-IsCandle fs now b h =
    let m = accept_all fs reset in
    received_lately m (accept_all-IsClean fs reset tt) now b m.received refl h
