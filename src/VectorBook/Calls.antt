-- ===== src/VectorBook/Calls.antt =====
-- Calls of the vector book one after the other, against the same calls of the map book.
use lightning_lob.MapBook
use lightning_lob.MapBook.{OrderBookMap}
use lightning_lob.VectorBook.{OrderBookVector, vector_add_order, vector_cancel_order}
use lightning_lob.VectorBook.Agreement.{as_map}
use lightning_lob.Base.{[], ◌∷◌, refl, ℕ, List, ◌≡◌, Bool, ap, ◌∙◌}
use lightning_lob.Order.{ExecutionReport, Trade, Order}
use lightning_lob.VectorBook.Cancels.{IsSortedBook, vector_cancel_order-as_map}
use lightning_lob.Types.{Timestamp, OrderId}
use lightning_lob.VectorBook.Kept.{vector_add_order-IsSortedBook, vector_cancel_order-IsSortedBook}
use lightning_lob.VectorBook.Adds.{vector_add_order-as_map}

-- `clock` gives the readings of the time in one call.
pub data Call : Type 0 where
  adds : (clock : ℕ → Timestamp) → Order → Call
  cancels : OrderId → Call

-- What a call gives back.
pub data Reply : Type 0 where
  added : ExecutionReport → List Trade → Reply
  cancelled_is : Bool → Reply

abbrev pub vector_call : Call → OrderBookVector → Reply × OrderBookVector
vector_call (adds clock o) b =
    let r = vector_add_order clock b o in (added r.report r.trades, r.book)
vector_call (cancels id) b = let (ok, after) = vector_cancel_order b id in (cancelled_is ok, after)

abbrev pub map_call : Call → OrderBookMap → Reply × OrderBookMap
map_call (adds clock o) b = let r = MapBook.add_order clock b o in (added r.report r.trades, r.book)
map_call (cancels id) b = let (ok, after) = MapBook.cancel_order b id in (cancelled_is ok, after)

-- The replies in order, and the book afterwards.
abbrev pub vector_calls : List Call → OrderBookVector → List Reply × OrderBookVector
vector_calls [] b = ([], b)
vector_calls (c ∷ calls) b =
    let (reply, next) = vector_call c b in
    let (replies, after) = vector_calls calls next in (reply ∷ replies, after)

abbrev pub map_calls : List Call → OrderBookMap → List Reply × OrderBookMap
map_calls [] b = ([], b)
map_calls (c ∷ calls) b =
    let (reply, next) = map_call c b in
    let (replies, after) = map_calls calls next in (reply ∷ replies, after)

call-as_map :
    (c : Call) (b : OrderBookVector)
    → IsSortedBook b
    → (let (reply, after) = vector_call c b in (reply, as_map after) ≡ map_call c (as_map b))
call-as_map (adds clock o) b sorted =
    ap (λ (r : MapBook.Outcome). (added r.report r.trades, r.book))
      (vector_add_order-as_map clock b o)
call-as_map (cancels id) b sorted =
    ap (λ (r : Bool × OrderBookMap). (cancelled_is r.0, r.1))
      (vector_cancel_order-as_map b id sorted)

call-IsSortedBook :
    (c : Call) (b : OrderBookVector) → IsSortedBook b → IsSortedBook (vector_call c b).1
call-IsSortedBook (adds clock o) b sorted = vector_add_order-IsSortedBook clock b o sorted
call-IsSortedBook (cancels id) b sorted = vector_cancel_order-IsSortedBook b id sorted

-- On a vector book whose levels are sorted, as those of a new book are, any calls of add_order and
-- cancel_order give the replies that the map book with the same levels gives, and leave the same
-- levels, pool and index, sorted again.
pub vector_calls-map_calls :
    (calls : List Call) (b : OrderBookVector)
    → IsSortedBook b
    → (let (replies, after) = vector_calls calls b in
        ((replies, as_map after) ≡ map_calls calls (as_map b)) × IsSortedBook after)
vector_calls-map_calls [] b sorted = (refl, sorted)
vector_calls-map_calls (c ∷ calls) b sorted =
    let (reply, next) = vector_call c b in
    let (same, kept) = vector_calls-map_calls calls next (call-IsSortedBook c b sorted) in
    (
      ap (λ (r : List Reply × OrderBookMap). (reply ∷ r.0, r.1)) same
          ∙ ap
              (λ (r : Reply × OrderBookMap).
                let (replies, after) = map_calls calls r.1 in (r.0 ∷ replies, after))
              (call-as_map c b sorted),
      kept,
    )
