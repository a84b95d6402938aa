-- ===== src/Feeds/Universe.antt =====
-- `market_ids` of dhan_cas_bot/market_subscriptions.py and `shock_universe` of
-- dhan_cas_bot/volatility_shock.py: which contracts of the catalogue are subscribed to. The results are
-- sets, given as lists.
use dhan_bot.Prelude.{
  ℕ, ◌-◌, ◌≡◌, arith, String, Bool, true, false, not, ◌&&◌, ◌||◌, Option, none, some, List, [], ◌∷◌,
  ◌++◌, map, take, ltb, leb, ◌==◌, str_eq, if◌then◌else◌, select, sort_by,
}
use dhan_bot.Domain.{Instrument, OptionType, ce, pe}
use dhan_bot.Strategy.{insert_price}
use dhan_bot.Feeds.Sets.{contains, text_leq}

abbrev pub gap_between : ℕ → ℕ → ℕ
gap_between a b = if leb a b then b - a else a - b

-- `sorted({i.expiry for i in rows})`
unfoldable pub expiries : List Instrument → List ℕ
unfolding insert_price
expiries [] = []
expiries (i ∷ is) = insert_price i.expiry (expiries is)

abbrev pub of_expiry : ℕ → List Instrument → List Instrument
of_expiry expiry rows = select (λ (i : Instrument). i.expiry == expiry) rows

abbrev pub ids : List Instrument → List String
ids rows = map Instrument.security_id rows

-- The key `(abs(i.strike-anchor), i.security_id)`
abbrev pub nearer : ℕ → Instrument → Instrument → Bool
nearer anchor i j =
    let a = gap_between i.strike anchor in
    let b = gap_between j.strike anchor in
    ltb a b || (a == b && text_leq i.security_id j.security_id)

-- The key `(abs(i.strike-spot), i.strike)`
abbrev pub nearer_strike : ℕ → Instrument → Instrument → Bool
nearer_strike spot i j =
    let a = gap_between i.strike spot in
    let b = gap_between j.strike spot in ltb a b || (a == b && leb i.strike j.strike)

abbrev pub same_side : OptionType → OptionType → Bool
same_side ce ce = true
same_side pe pe = true
same_side _ _ = false

-- Away from the money, or at it: up for a call, down for a put.
abbrev pub is_outward : OptionType → ℕ → Instrument → Bool
is_outward ce atm i = leb atm i.strike
is_outward pe atm i = leb i.strike atm

-- Two strikes inward and thirteen outward of the strike at the money.
abbrev pub around : OptionType → List Instrument → List Instrument → List Instrument
around side group [] = []
around side group (atm ∷ others) =
    take 2 (
      sort_by (nearer atm.strike)
        (select (λ (i : Instrument). not (is_outward side atm.strike i)) group))
    ++ take 13 (
        sort_by (nearer atm.strike)
          (select (λ (i : Instrument). is_outward side atm.strike i) group))

unfoldable pub around_expiries : OptionType → ℕ → List Instrument → List ℕ → List Instrument
around_expiries side spot rows [] = []
around_expiries side spot rows (e ∷ es) =
    let group = of_expiry e rows in
    around side group (sort_by (nearer_strike spot) group) ++ around_expiries side spot rows es

unfoldable pub shock_universe : List Instrument → OptionType → ℕ → ℕ → List Instrument
unfolding around_expiries expiries
shock_universe instruments side spot day =
    let rows =
      select (λ (i : Instrument). leb day i.expiry && same_side i.option_type side) instruments in
    around_expiries side spot rows (take 2 (expiries rows))

unfoldable pub shock_ids : List Instrument → ℕ → List ℕ → List String
unfolding shock_universe
shock_ids rows day [] = []
shock_ids rows day (a ∷ anchors) =
    ids (shock_universe rows ce a day)
    ++ (ids (shock_universe rows pe a day) ++ shock_ids rows day anchors)

-- The 32 contracts nearest to each anchor.
unfoldable pub nearest_ids : List Instrument → List ℕ → List String
nearest_ids eligible [] = []
nearest_ids eligible (a ∷ anchors) =
    ids (take 32 (sort_by (nearer a) eligible)) ++ nearest_ids eligible anchors

unfoldable pub window_ids : List Instrument → List ℕ → List ℕ → List String
unfolding nearest_ids
window_ids rows anchors [] = []
window_ids rows anchors (e ∷ es) =
    nearest_ids (of_expiry e rows) anchors ++ window_ids rows anchors es

-- An anchor that is no finite decimal is absent; one that is not above zero is dropped too.
unfoldable pub usable_anchors : List (Option ℕ) → List ℕ
usable_anchors [] = []
usable_anchors (none ∷ anchors) = usable_anchors anchors
usable_anchors (some a ∷ anchors) =
    let rest = usable_anchors anchors in if a == 0 then rest else a ∷ rest

abbrev pub future_ids : Option String → List String
future_ids none = []
future_ids (some id) = if str_eq id "" then [] else id ∷ []

abbrev pub expiry_ids : Option ℕ → List Instrument → List String
expiry_ids none rows = []
expiry_ids (some e) rows = ids (of_expiry e rows)

unfoldable pub market_ids :
    List Instrument
    → ℕ
    → List (Option ℕ)
    → List String
    → Option String
    → Option ℕ
    → Bool
    → List String
unfolding usable_anchors shock_ids window_ids expiries
market_ids catalogue day anchors held future_id full_expiry shock =
    let rows = select (λ (i : Instrument). leb day i.expiry) catalogue in
    let found = usable_anchors anchors in
    held
    ++ (future_ids future_id
        ++ (if shock
            then shock_ids rows day found
            else expiry_ids full_expiry rows ++ window_ids rows found (take 3 (expiries rows))))

contains-append_left :
    (xs ys : List String) (s : String) → contains xs s ≡ true → contains (xs ++ ys) s ≡ true
contains-append_left [] ys s h = ground (arith, h)
contains-append_left (x ∷ xs) ys s h = ground (arith, contains-append_left xs ys s)

-- A contract that is held is subscribed to, whatever else is.
pub held-market_ids :
    (catalogue : List Instrument) (day : ℕ) (anchors : List (Option ℕ)) (held : List String)
    (future_id : Option String) (full_expiry : Option ℕ) (shock : Bool) (s : String)
    → contains held s ≡ true
    → contains (market_ids catalogue day anchors held future_id full_expiry shock) s ≡ true
unfolding market_ids
held-market_ids catalogue day anchors held future_id full_expiry shock s h =
    contains-append_left held _ s h
