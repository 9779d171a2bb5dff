-- ===== src/Replay.antt =====
-- include/lightninglob/replay.hpp and src/replay.cpp: a file of comma-separated orders is loaded and
-- sent through the engine.
pub mod Csv
pub mod Decimals
pub mod Rows
pub mod Files
pub mod Tally
mod Tests
use lightning_lob.Names.{Bytes, codes}
use lightning_lob.Types.{
  buy, sell, limit, market, gtc, ioc, rejected, filled, partially_filled, OrderId, SymbolId,
  Timestamp, Side, OrderType, TimeInForce, OrderStatus, no_participant,
}
use mathlib.Core.Option
use lightning_lob.Order.{OrderRequest}
use lightning_lob.Engine.{Engine, BookOps, Response, submit_order}
use lightning_lob.Base.{
  [], ◌∷◌, true, false, zero, suc, none, some, inl, inr, refl, arith, List, Bool, ℕ, Option,
  if◌then◌else◌, ◌+◌, ◌==◌, take, length, leb, ◌*◌, ltb, ◌||◌, ◌&&◌, drop, ◌-◌, ◌^◌, not, ◌++◌,
}
use lightning_lob.Base.Int.{ℤ, pos, ◌-ℤ◌}

-- The `std::runtime_error`s of `load_csv`, with the text that each one quotes.
pub data LoadError : Type 0 where
  could_not_open : LoadError
  bad_number bad_side bad_type bad_time_in_force : Bytes → LoadError
  malformed_line : Bytes → LoadError

-- What a function that may throw gives.
pub data Result {ℓ} (A : Type ℓ) : Type ℓ where
  ok : A → Result A
  throws : LoadError → Result A

infixl 10 ◌>>=◌
abbrev pub ◌>>=◌ {ℓ κ} : {A : Type ℓ} {B : Type κ} → Result A → (A → Result B) → Result B
ok a >>= f = f a
throws e >>= f = throws e

abbrev pub eqb_bytes : Bytes → Bytes → Bool
eqb_bytes [] [] = true
eqb_bytes (x ∷ xs) (y ∷ ys) = x == y && eqb_bytes xs ys
eqb_bytes _ _ = false

-- The position of the first `delim`, `std::string_view::npos` is `none`.
abbrev pub find_delim : (delim : ℕ) → Bytes → Option ℕ
find_delim delim [] = none
find_delim delim (c ∷ cs) = if c == delim then some 0 else Option.map suc (find_delim delim cs)

-- The loop of `split` on what stands from `start` on. It takes one byte more than a field in each
-- round but the last.
unfoldable pub split_from : (rounds : ℕ) → (delim : ℕ) → Bytes → List Bytes
split_from zero delim line = []
split_from (suc rounds) delim line = elim (find_delim delim line) [
  | none ↦ line ∷ []
  | some at ↦ take at line ∷ split_from rounds delim (drop (suc at) line)
]

unfoldable pub split : Bytes → (delim : ℕ) → List Bytes
split line delim = split_from (length line + 1) delim line

abbrev pub is_digit : ℕ → Bool
is_digit c = leb 48 c && leb c 57

-- The value of the digits that a text begins with, behind those read.
abbrev pub digits : (value : ℕ) → Bytes → ℕ
digits value [] = value
digits value (c ∷ cs) = if is_digit c then digits (value * 10 + (c - 48)) cs else value

abbrev pub starts_with_digit : Bytes → Bool
starts_with_digit [] = false
starts_with_digit (c ∷ cs) = is_digit c

-- `std::from_chars` of an unsigned number of `bits` bits, and of an `int64_t`: a sign is read for the
-- latter only, there is one digit at least, and what stands behind the digits is not read.
unfoldable pub from_chars_unsigned : (bits : ℕ) → Bytes → Option ℕ
from_chars_unsigned bits field =
    if starts_with_digit field
    then (if ltb (digits 0 field) (2 ^ bits) then some (digits 0 field) else none)
    else none

abbrev pub positive_of : Bytes → Option ℤ
positive_of field = Option.map pos (from_chars_unsigned 63 field)

abbrev pub negative_of : Bytes → Option ℤ
negative_of field =
    if starts_with_digit field
    then (if leb (digits 0 field) (2 ^ 63) then some (pos 0 -ℤ pos (digits 0 field)) else none)
    else none

unfoldable pub from_chars_signed : Bytes → Option ℤ
unfolding from_chars_unsigned
from_chars_signed [] = none
from_chars_signed (c ∷ rest) = if c == 45 then negative_of rest else positive_of (c ∷ rest)

-- `parse_number<T>`, given what `from_chars` makes of the field.
abbrev pub parse_number : {A : Type 0} → (Bytes → Option A) → Bytes → Result A
parse_number from_chars field = elim (from_chars field) [
  | none ↦ throws (bad_number field)
  | some value ↦ ok value
]

unfoldable pub parse_side : Bytes → Result Side
parse_side field =
    if eqb_bytes field (codes "BUY")
    then ok buy
    else if eqb_bytes field (codes "SELL")
    then ok sell
    else throws (bad_side field)

unfoldable pub parse_type : Bytes → Result OrderType
parse_type field =
    if eqb_bytes field (codes "LIMIT")
    then ok limit
    else if eqb_bytes field (codes "MARKET")
    then ok market
    else throws (bad_type field)

unfoldable pub parse_tif : Bytes → Result TimeInForce
parse_tif field =
    if eqb_bytes field (codes "GTC") || eqb_bytes field []
    then ok gtc
    else if eqb_bytes field (codes "IOC")
    then ok ioc
    else throws (bad_time_in_force field)

-- The last column, which may be missing.
abbrev pub parse_last : List Bytes → Result TimeInForce
parse_last [] = ok gtc
parse_last (field ∷ _) = parse_tif field

-- The body of the loop of `load_csv` on a line, given its fields.
unfoldable pub parse_fields : Bytes → List Bytes → Result OrderRequest
parse_fields line (f0 ∷ f1 ∷ f2 ∷ f3 ∷ f4 ∷ f5 ∷ f6 ∷ rest) = do
  id ← parse_number (from_chars_unsigned 64) f0
  timestamp ← parse_number (from_chars_unsigned 64) f1
  symbol ← parse_number (from_chars_unsigned 32) f2
  side ← parse_side f3
  type ← parse_type f4
  price ← parse_number from_chars_signed f5
  quantity ← parse_number from_chars_signed f6
  tif ← parse_last rest
  ok (record {
    client_order_id = id;
    symbol = symbol;
    participant_id = no_participant;
    side = side;
    type = type;
    price = price;
    quantity = quantity;
    time_in_force = tif;
  })
parse_fields line _ = throws (malformed_line line)

-- `if (!line.empty() && line.back() == '\r') line.pop_back();`
abbrev pub strip_return : Bytes → Bytes
strip_return [] = []
strip_return (c ∷ []) = if c == 13 then [] else c ∷ []
strip_return (c ∷ d ∷ cs) = c ∷ strip_return (d ∷ cs)

-- The loop of `load_csv` over the lines that `std::getline` gives.
unfoldable pub load_lines :
    (first_line : Bool) → (orders : List OrderRequest) → List Bytes → Result (List OrderRequest)
load_lines first_line orders [] = ok orders
load_lines first_line orders (line ∷ rest) =
    let text = strip_return line in
    let skipped = load_lines first_line orders rest in
    let header = load_lines false orders rest in
    if eqb_bytes text []
    then skipped
    else if first_line && not (starts_with_digit text)
    then header
    else do
      request ← parse_fields text (split text 44)
      load_lines false (orders ++ request ∷ []) rest

-- A file that cannot be opened is `none`.
unfoldable pub load_csv : Option (List Bytes) → Result (List OrderRequest)
load_csv none = throws could_not_open
load_csv (some lines) = load_lines true [] lines

pub record ReplayStats : Type 0 where
  pub total : ℕ
  pub accepted : ℕ
  pub rejected_orders : ℕ
  pub filled_orders : ℕ
  pub partially_filled_orders : ℕ

-- What a report adds to the counts.
abbrev pub tally : OrderStatus → ReplayStats → ReplayStats
tally rejected s = record s { rejected_orders = s.rejected_orders + 1 }
tally filled s = record s { accepted = s.accepted + 1; filled_orders = s.filled_orders + 1 }
tally partially_filled s = record s {
  accepted = s.accepted + 1;
  partially_filled_orders = s.partially_filled_orders + 1;
}
tally _ s = record s { accepted = s.accepted + 1 }

-- `clock i` is what the clock shows during the call for order `i`.
module _ {B : Type 0} (ops : BookOps B) (clock : ℕ → ℕ → Timestamp) where
  unfoldable pub replay_from :
      (i : ℕ) → Engine B → List OrderRequest → ReplayStats → Engine B × ReplayStats
  replay_from i engine [] stats = (engine, stats)
  replay_from i engine (request ∷ rest) stats =
      let r = submit_order ops (clock i) engine request in
      replay_from (i + 1) r.engine rest (tally r.report.status stats)

  unfoldable pub replay : Engine B → List OrderRequest → Engine B × ReplayStats
  replay engine orders = replay_from 0 engine orders (record {
    total = length orders;
    accepted = 0;
    rejected_orders = 0;
    filled_orders = 0;
    partially_filled_orders = 0;
  })
