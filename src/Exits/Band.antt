-- ===== src/Exits/Band.antt =====
-- The sale price of dhan_cas_bot/exits.py lies on a tick and inside the instrument's price band.
use dhan_bot.Prelude.{
  ℕ, ◌*◌, ◌%◌, ◌≤◌, ◌<◌, ◌≡◌, ◌≢◌, arith, Bool, true, false, Option, none, some, ok, ◌⊎◌, ceil_div,
  ◌/◌, ◌==◌, ◌&&◌, not, mod-mul, ceil_div-le, le-ceil_div, max,
}
use dhan_bot.Domain.{Instrument, OptionBook, tick, top_bid, is_none}
use dhan_bot.Exits.Sale.{at_least, at_most, clamped_price, sell_limit}

abbrev Above : Option ℕ → ℕ → Type 0
Above none v = Unit
Above (some l) v = l ≤ v

abbrev Below : Option ℕ → ℕ → Type 0
Below none v = Unit
Below (some u) v = v ≤ u

-- The upper limit is a positive multiple of the tick and is not below the lower limit.
abbrev Aligned : Option ℕ → Option ℕ → ℕ → Type 0
Aligned lower none size = Unit
Aligned lower (some u) size = (0 < u) × (u % size ≡ 0) × Above lower u

tick-eq :
    (i : Instrument) (p : ℕ)
    → 0 < i.tick_size
    → p % i.tick_size ≡ 0
    → tick i p ≡ ok (p / i.tick_size)
unfolding tick
tick-eq i p size h =
    let e : (i.tick_size == 0) ≡ false = ground arith in
    let d : (p % i.tick_size == 0) ≡ true = ground arith in rw (e, d)

aligned_min : (u size : ℕ) → 0 < u → u % size ≡ 0 → size ≤ u
aligned_min u size p h = grind arith

band_fits :
    (l u : Option ℕ) (t w : ℕ)
    → Aligned l u t
    → (t ≤ at_most u (at_least l (max t w)))
      × Above l (at_most u (at_least l (max t w)))
      × Below u (at_most u (at_least l (max t w)))
band_fits none none t w h = omega arith
band_fits (some l) none t w h = omega arith
band_fits none (some u) t w h = omega (arith, aligned_min u t h.0 h.1)
band_fits (some l) (some u) t w h = omega (arith, aligned_min u t h.0 h.1)

Above-mono : (l : Option ℕ) (c v : ℕ) → c ≤ v → Above l c → Above l v
Above-mono none c v h k = tt
Above-mono (some l) c v h k = omega arith

Below-round :
    (l u : Option ℕ) (c t : ℕ) → 0 < t → Aligned l u t → Below u c → Below u (ceil_div c t * t)
Below-round l none c t p h k = tt
Below-round l (some u) c t p h k = ceil_div-le c u t p h.1 k

clamped_price_fits :
    (book : OptionBook) (emergency : Bool)
    → Aligned book.instrument.lower_limit book.instrument.upper_limit book.instrument.tick_size
    → (book.instrument.tick_size ≤ clamped_price book emergency)
      × Above book.instrument.lower_limit (clamped_price book emergency)
      × Below book.instrument.upper_limit (clamped_price book emergency)
unfolding clamped_price
clamped_price_fits book emergency aligned =
    let i = book.instrument in band_fits i.lower_limit i.upper_limit i.tick_size _ aligned

-- A sale is priced when there is a bid or the exit is an emergency, on a tick, at one tick or more,
-- and not below the lower nor above the upper limit, provided the upper limit is a positive
-- multiple of the tick and not below the lower one.
pub sell_limit_in_band :
    (book : OptionBook) (emergency : Bool)
    → (top_bid book ≢ none) ⊎ (emergency ≡ true)
    → 0 < book.instrument.tick_size
    → Aligned book.instrument.lower_limit book.instrument.upper_limit book.instrument.tick_size
    → (v : ℕ) × (sell_limit book emergency ≡ ok v)
      × (v % book.instrument.tick_size ≡ 0)
      × (book.instrument.tick_size ≤ v)
      × Above book.instrument.lower_limit v
      × Below book.instrument.upper_limit v
unfolding sell_limit
sell_limit_in_band book emergency quoted size aligned =
    let t = book.instrument.tick_size in
    let c = clamped_price book emergency in
    let v = ceil_div c t * t in
    let priced : (is_none (top_bid book) && not emergency) ≡ false = ground arith in
    let on_tick : v % t ≡ 0 = mod-mul (ceil_div c t) t in
    let up : c ≤ v = le-ceil_div c t size in
    let fits = clamped_price_fits book emergency aligned in
    (
      v,
      rw priced (rw (tick-eq book.instrument v size on_tick)),
      on_tick,
      omega (arith, fits.0, up),
      Above-mono book.instrument.lower_limit c v up fits.1,
      Below-round book.instrument.lower_limit book.instrument.upper_limit c t size aligned fits.2,
    )
