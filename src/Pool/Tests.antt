-- ===== src/Pool/Tests.antt =====
-- The pool and one price level on small inputs.
use lightning_lob.Types.{sell, limit, gtc, Side, null_index, OrderType, TimeInForce}
use lightning_lob.Pool.{level_push_back, level_unlink, node, OrderPool, PriceLevel}
use lightning_lob.Base.{[], ◌∷◌, refl, arith, ℕ, ◌≡◌}
use lightning_lob.Pool.Level.{
  open_quantity, IsLinked, IsLevel, level_unlink-IsLinked, level_push_back-IsLevel,
}
use lightning_lob.Base.Int.{pos, ◌+ℤ◌}
use lightning_lob.Order.{Order}

abbrev pub order : ℕ → Side → OrderType → TimeInForce → ℕ → ℕ → ℕ → Order
order id side type tif price quantity participant = record {
  id = id;
  price = pos price;
  quantity = pos quantity;
  remaining_quantity = pos quantity;
  timestamp = 0;
  symbol = 1;
  participant_id = participant;
  side = side;
  type = type;
  time_in_force = tif;
}

-- Two orders on one level, in the slots 0 and 1, and a free slot.
abbrev pub two_on_level : OrderPool
two_on_level = record {
  nodes =
      record { order = order 7 sell limit gtc 101 10 3; prev = null_index; next = 1 }
      ∷ record { order = order 8 sell limit gtc 101 5 4; prev = 0; next = null_index }
      ∷ record { order = order 9 sell limit gtc 102 6 4; prev = null_index; next = null_index }
      ∷ [];
  free_list = [];
}

abbrev pub level_of_two : PriceLevel
level_of_two = record {
  price = pos 101;
  total_quantity = pos 15;
  order_count = 2;
  head = 0;
  tail = 1;
}

pub level_of_two-IsLevel : IsLevel two_on_level level_of_two (0 ∷ 1 ∷ [])
unfolding node open_quantity ◌+ℤ◌
level_of_two-IsLevel = record {
  links = record {
    chain = (
      refl,
      omega arith,
      omega arith,
      refl,
      (refl, omega arith, omega arith, refl, (refl, refl)),
    );
    distinct = ((omega arith, tt), (tt, tt));
    count = refl;
    few = omega arith;
  };
  total = refl;
}

-- The first order leaves, and the second is the head.
after_unlink :
    (let (level, pool) = level_unlink level_of_two two_on_level 0 in
      (level.head ≡ 1) × (level.tail ≡ 1) × ((node pool 1).prev ≡ null_index))
unfolding level_unlink node
after_unlink = (refl, refl, refl)

level_unlink-IsLinked_example :
    (let (after, q) = level_unlink level_of_two two_on_level 0 in
      IsLinked q after (1 ∷ [])
      × (after.total_quantity ≡ pos 15)
      × (after.price ≡ pos 101)
      × ((j : ℕ) → (node q j).order ≡ (node two_on_level j).order))
level_unlink-IsLinked_example =
    level_unlink-IsLinked level_of_two two_on_level 0 [] (1 ∷ []) level_of_two-IsLevel.links

level_push_back-IsLevel_example :
    (let (after, q) = level_push_back level_of_two two_on_level 2 in
      IsLevel q after (0 ∷ 1 ∷ 2 ∷ [])
      × (after.price ≡ pos 101)
      × ((j : ℕ) → (node q j).order ≡ (node two_on_level j).order))
unfolding node
level_push_back-IsLevel_example =
    level_push_back-IsLevel level_of_two two_on_level 2 (0 ∷ 1 ∷ []) (omega arith) (omega arith)
      (omega arith, (omega arith, tt)) (omega arith) level_of_two-IsLevel
