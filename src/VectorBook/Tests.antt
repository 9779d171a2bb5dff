-- ===== src/VectorBook/Tests.antt =====
-- The vector book on small inputs.
use lightning_lob.Types.{buy, sell, limit, gtc, ioc, no_prevention}
use lightning_lob.VectorBook.Calls.{
  Call, adds, cancels, vector_calls, map_calls, vector_calls-map_calls,
}
use lightning_lob.VectorBook.Cancels.{IsSortedBook}
use lightning_lob.Base.{List}
use lightning_lob.Pool
use lightning_lob.Pool.Tests.{order, two_on_level, level_of_two}
use lightning_lob.IdIndexMap
use lightning_lob.VectorBook.{OrderBookVector, find_position}
use lightning_lob.VectorBook.Agreement.{as_map}
use lightning_lob.Base.{[], ◌∷◌, refl, ◌≡◌}
use lightning_lob.Pool.{PriceLevel}
use lightning_lob.Base.Int.{pos}

abbrev empty_at_103 : PriceLevel
empty_at_103 = record Pool.new_level { price = pos 103 }

abbrev book : OrderBookVector
book = record {
  symbol = 1;
  bids = [];
  asks = level_of_two ∷ empty_at_103 ∷ [];
  pool = two_on_level;
  id_index = IdIndexMap.new 4;
  stp_policy = no_prevention;
}

second_position : find_position sell (pos 103) book.asks ≡ 1
unfolding find_position
second_position = refl

book-IsSortedBook : IsSortedBook book
book-IsSortedBook buy = tt
book-IsSortedBook sell = ((refl, tt), (tt, tt))

-- An order that rests at a new price, one that trades at 101, and two cancels.
abbrev calls : List Call
calls =
    adds (λ i. i) (order 9 sell limit gtc 102 6 4)
    ∷ adds (λ i. i) (order 20 buy limit ioc 101 12 5)
    ∷ cancels 9
    ∷ cancels 9
    ∷ []

vector_calls-map_calls_example :
    (let (replies, after) = vector_calls calls book in
      ((replies, as_map after) ≡ map_calls calls (as_map book)) × IsSortedBook after)
vector_calls-map_calls_example = vector_calls-map_calls calls book book-IsSortedBook
