-- ===== src/Lib.antt =====
-- Lightning LOB: a limit order book and matching engine.
--
-- The program keeps the resting orders of a symbol in a pool of slots (`OrderPool`), links those of
-- one price in a first-in-first-out list (`PriceLevel`), finds an order by its id in an
-- open-addressing table (`IdIndexMap`), and orders the levels in one of three books. A new order
-- is matched against the other side of the book level by level, and what is left of it rests. A
-- matching engine (`MatchingEngine`) keeps the books of the symbols, and its risk manager
-- (`RiskManager`) checks an order before it reaches the book and follows the positions. A gateway
-- (`OrderGateway`) passes requests from producer threads to the matching thread, through a ring of
-- one producer and one consumer (`SpscRingBuffer`) for each. A replay (`OrderReplay`) loads orders
-- from a file and sends them through the engine. A logger (`Logger`) passes records through such a
-- ring to a thread that writes them out.
--
-- Types.antt         include/lightninglob/types.hpp: integers, enums, constants
-- Order.antt         include/lightninglob/order.hpp: Order, Trade, ExecutionReport
-- Names.antt         include/lightninglob/types.hpp: to_string of the enums
-- Pool.antt          include/lightninglob/order_pool.hpp: the pool, level_push_back, level_unlink,
--                    level_reduce_quantity. Pool/Nodes and Pool/Chain carry the links, Pool/Level
--                    and Pool/Reduce the well-formed level.
-- IdIndexMap.antt    include/lightninglob/id_index_map.hpp: insert, find, erase, grow.
--                    IdIndexMap/Table is the well-formed table, IdIndexMap/Cycle the places on the
--                    circle of its slots, IdIndexMap/Probing what a probe meets, and IdIndexMap/Hole
--                    the hole that erase moves.
-- Drain.antt         src/order_book_map.cpp: the inner loop of match_against_book, which the other
--                    books write the same way. Drain/Fifo is the plain description of it, and
--                    Drain/Refinement, Drain/Ends and Drain/Trades are about the loop.
-- MapBook.antt       include/lightninglob/order_book_map.hpp and src/order_book_map.cpp:
--                    add_order, cancel_order, amend_order and what they call. Its children are
--                    named for what they are about.
-- VectorBook.antt    include/lightninglob/order_book_vector.hpp and src/order_book_vector.cpp; the
--                    names that it shares with the map book carry `vector_`. Its children compare it
--                    with the map book, and VectorBook/Calls call after call.
-- Bitset.antt        include/lightninglob/bitset_utils.hpp. Bitset/Words has the bits of one word,
--                    Bitset/Members the members of a bitset, Bitset/Search the two searches.
-- Ladder.antt        src/order_book_array.cpp: one side of the array book
-- ArrayBook.antt     include/lightninglob/order_book_array.hpp and src/order_book_array.cpp; the
--                    names that it shares with the map book carry `array_`. Its children are named
--                    for what they are about.
-- Risk.antt          include/lightninglob/risk_manager.hpp and src/risk_manager.cpp
-- Engine.antt        include/lightninglob/matching_engine.hpp, over an interface of books that the
--                    map book fills
-- Ring.antt          include/lightninglob/lockfree_queue.hpp. Ring/Threads has the two threads.
-- Gateway.antt       include/lightninglob/order_gateway.hpp. Gateway/Lanes and Gateway/Sweeps have
--                    one sweep, and Gateway/Served sweeps and pushes in any order.
-- Replay.antt        include/lightninglob/replay.hpp and src/replay.cpp. Replay/Csv has the fields
--                    of a line, Replay/Decimals its numbers, Replay/Rows and Replay/Files lines and
--                    files, and Replay/Tally the counts of a replay.
-- Logger.antt        include/lightninglob/logger.hpp and src/logger.cpp. Logger/Text has the message
--                    of a record, and Logger/Threads the caller and the worker.
-- Base.antt          shared names, lists, tests and signed integers
--
-- A mutable object is a record that an operation takes and returns; the orders are reached through
-- their slot numbers, as in the program. A `std::map` and a `std::unordered_map` are association
-- lists. The trade callback is the list of the trades of a call, in order, and `now_ns()` is a
-- parameter: the readings of the clock in one call. Prices, quantities and positions are integers
-- without bound, so an overflow of `int64_t` is not seen; slot numbers, hashes, the number of orders
-- of a level, the next order id, the counters of the logger and the rate window wrap as the
-- program's do. A `std::size_t` that counts the elements of a container, or the rounds of one
-- call over them, is a number without bound, since the elements are in memory.
--
-- The loops that the program ends by their own test run on a number of rounds. The loop over a
-- level has one round more than the level has orders: a round that goes on takes an order off or
-- fills the taker. The loop over the levels has one round more than there are levels. A probe of
-- the index has as many rounds as there are slots, and says so when it would not end.
--
-- The loops of the array book over its levels have one round more than there are prices, since the
-- index moves one way; a search of the bitset has as many rounds as there are words, and `split` one
-- round more than the line has bytes.
--
-- The last loop of the logger's worker takes a number of rounds, and tells whether its own test
-- ended it: one round more than the queue has records is enough.
--
-- `std::from_chars` is written after its documentation: digits are read as far as they go. A text is
-- a list of bytes, and a file the list of lines that `std::getline` gives.
--
-- The constructor of the array book takes as a parameter whether the library finds room for its
-- vectors; elsewhere an allocation is taken to succeed.
--
-- `std::format` of a line of the log is a parameter. A push or a pop of the logger's ring is one step
-- of its threads; the ring's own steps are those of Ring/Threads.
--
-- Not modelled: thread affinity, which calls the operating system only, the prints of the books, and
-- the demo program, the tests and the benchmarks, which are input and output.
pub mod Base
pub mod Drain
pub mod IdIndexMap
pub mod Logger
pub mod MapBook
pub mod Order
pub mod Names
pub mod Pool
pub mod Types
pub mod Risk
pub mod Ring
pub mod Engine
pub mod VectorBook
pub mod Bitset
pub mod Ladder
pub mod ArrayBook
pub mod Gateway
pub mod Replay
