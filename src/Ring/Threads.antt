-- ===== src/Ring/Threads.antt =====
-- The producer and the consumer as two threads that interleave at each access of shared memory. An
-- acquire load sees the last release store, which the source's memory orders grant for these two
-- threads; a thread reads its own index as it left it.
use mathlib.Core.List.{head?}
use mathlib.Core.List.{append_assoc}
use lightning_lob.Base.{
  ◌<◌, [], ◌∷◌, false, none, some, refl, arith, ℕ, List, ◌≡◌, ◌<◌, length, ◌==◌, ◌+◌, ◌++◌, set,
  get_or, ap, length-append, ◌≢◌, sym, ◌∙◌, subst,
}
use lightning_lob.Ring.{SpscRingBuffer, new_ring, succ_idx}
use lightning_lob.Ring.Window.{Holds}
use lightning_lob.Ring.Queue.{
  new_ring-Holds, drop-Holds, full_iff, store-Holds, empty_iff, publish-Holds,
}

-- Between the steps of `try_push`, and of `try_pop`.
pub data Producer (T : Type 0) : Type 0 where
  producer_idle : Producer T
  room_seen slot_stored : T → Producer T

pub data Consumer (T : Type 0) : Type 0 where
  consumer_idle item_seen : Consumer T
  slot_read : T → Consumer T

-- `sent` and `received` are the items of the calls that are over, in order.
pub record System (T : Type 0) : Type 0 where
  pub ring : SpscRingBuffer T
  pub producer : Producer T
  pub consumer : Consumer T
  pub sent : List T
  pub received : List T

module _ {T : Type 0} (capacity : ℕ) (blank : T) where
  pub data Step (s t : System T) : Type 0 where
    see_room :
        (item : T)
        → s.producer ≡ producer_idle
        → (succ_idx capacity blank s.ring.write_idx == s.ring.read_idx) ≡ false
        → t ≡ record s { producer = room_seen item }
        → Step s t
    store_slot :
        (item : T)
        → s.producer ≡ room_seen item
        → (let r = s.ring in
            t ≡ record s {
              ring = record r { buffer = set r.buffer r.write_idx item };
              producer = slot_stored item;
            })
        → Step s t
    publish_write :
        (item : T)
        → s.producer ≡ slot_stored item
        → (let r = s.ring in
            t ≡ record s {
              ring = record r { write_idx = succ_idx capacity blank r.write_idx };
              producer = producer_idle;
              sent = s.sent ++ item ∷ [];
            })
        → Step s t
    see_item :
        s.consumer ≡ consumer_idle
        → (s.ring.read_idx == s.ring.write_idx) ≡ false
        → t ≡ record s { consumer = item_seen }
        → Step s t
    read_slot :
        s.consumer ≡ item_seen
        → t ≡ record s { consumer = slot_read (get_or s.ring.buffer s.ring.read_idx blank) }
        → Step s t
    publish_read :
        (item : T)
        → s.consumer ≡ slot_read item
        → (let r = s.ring in
            t ≡ record s {
              ring = record r { read_idx = succ_idx capacity blank r.read_idx };
              consumer = consumer_idle;
              received = s.received ++ item ∷ [];
            })
        → Step s t

  pub data Reach (s : System T) : System T → Type 0 where
    here : Reach s s
    next : {t u : System T} → Reach s t → Step t u → Reach s u

  abbrev pub initial : System T
  initial = record {
    ring = new_ring capacity blank;
    producer = producer_idle;
    consumer = consumer_idle;
    sent = [];
    received = [];
  }

  -- What each thread knows of the items `xs` in the ring at its place in the code.
  abbrev pub ProducerKnows : SpscRingBuffer T → List T → Producer T → Type 0
  ProducerKnows r xs producer_idle = Unit
  ProducerKnows r xs (room_seen item) = length xs + 1 < capacity
  ProducerKnows r xs (slot_stored item) =
      (length xs + 1 < capacity) × (get_or r.buffer r.write_idx blank ≡ item)

  abbrev pub ConsumerKnows : List T → Consumer T → Type 0
  ConsumerKnows xs consumer_idle = Unit
  ConsumerKnows xs item_seen = 0 < length xs
  ConsumerKnows xs (slot_read item) = head? xs ≡ some item

  -- The items in the ring are those that were sent and not yet received.
  pub record Inv (s : System T) (xs : List T) : Type 0 where
    pub holds : Holds capacity blank s.ring xs
    pub fifo : s.received ++ xs ≡ s.sent
    pub producer_knows : ProducerKnows s.ring xs s.producer
    pub consumer_knows : ConsumerKnows xs s.consumer

  initial-Inv : 0 < capacity → Inv initial []
  initial-Inv h = record {
    holds = new_ring-Holds capacity blank h;
    fifo = refl;
    producer_knows = tt;
    consumer_knows = tt;
  }

  -- What one step leaves in the ring.
  abbrev Kept : System T → Type 0
  Kept t = (xs : List T) × Inv t xs

  oldest_slot :
      (r : SpscRingBuffer T) (xs : List T)
      → Holds capacity blank r xs
      → 0 < length xs
      → head? xs ≡ some (get_or r.buffer r.read_idx blank)
  oldest_slot r [] h n = absurd (omega arith)
  oldest_slot r (x ∷ xs) h n = ap some (sym (drop-Holds capacity blank r x xs h).0)

  snoc_consumer :
      (xs : List T) (item : T) (c : Consumer T)
      → ConsumerKnows xs c
      → ConsumerKnows (xs ++ item ∷ []) c
  snoc_consumer xs item consumer_idle k = tt
  snoc_consumer xs item item_seen k = omega (arith, length-append xs (item ∷ []))
  snoc_consumer [] item (slot_read y) k = cc
  snoc_consumer (x ∷ xs) item (slot_read y) k = k

  tail_producer :
      (r : SpscRingBuffer T) (i : ℕ) (x : T) (xs : List T) (p : Producer T)
      → ProducerKnows r (x ∷ xs) p
      → ProducerKnows (record r { read_idx = i }) xs p
  tail_producer r i x xs producer_idle k = tt
  tail_producer r i x xs (room_seen item) k = omega arith
  tail_producer r i x xs (slot_stored item) (k, e) = (omega arith, e)

  receive-Inv :
      (s : System T) (item : T) (xs : List T)
      → s.consumer ≡ slot_read item
      → Inv s xs
      → (let r = s.ring in
          Kept (record s {
            ring = record r { read_idx = succ_idx capacity blank r.read_idx };
            consumer = consumer_idle;
            received = s.received ++ item ∷ [];
          }))
  receive-Inv s item [] at v =
      let knows : none ≡ some item = rw at at v.consumer_knows in absurd (cc knows)
  receive-Inv s item (x ∷ xs) at v =
      let knows : some x ≡ some item = rw at at v.consumer_knows in
      (
        xs,
        record {
          holds = (drop-Holds capacity blank s.ring x xs v.holds).1;
          fifo =
              append_assoc s.received (item ∷ []) xs
              ∙ ap (λ y. s.received ++ y ∷ xs) (cc knows)
              ∙ v.fifo;
          producer_knows =
              tail_producer s.ring (succ_idx capacity blank s.ring.read_idx) x xs s.producer
                v.producer_knows;
          consumer_knows = tt;
        },
      )

  Step-Inv : (s t : System T) (xs : List T) → Step s t → Inv s xs → Kept t
  Step-Inv s t xs (see_room item at room e) v = (
    xs,
    rw e (record {
      holds = v.holds;
      fifo = v.fifo;
      producer_knows = ground (arith, full_iff capacity blank s.ring xs v.holds);
      consumer_knows = v.consumer_knows;
    }),
  )
  Step-Inv s t xs (store_slot item at e) v =
      let knows : length xs + 1 < capacity = rw at at v.producer_knows in
      let (stored, last) = store-Holds capacity blank s.ring xs item v.holds in
      (
        xs,
        rw e (record {
          holds = stored;
          fifo = v.fifo;
          producer_knows = (knows, last);
          consumer_knows = v.consumer_knows;
        }),
      )
  Step-Inv s t xs (publish_write item at e) v =
      let knows : ProducerKnows s.ring xs (slot_stored item) = rw at at v.producer_knows in
      (
        xs ++ item ∷ [],
        rw e (record {
          holds = publish-Holds capacity blank s.ring xs item v.holds knows.0 knows.1;
          fifo = sym (append_assoc s.received xs (item ∷ [])) ∙ ap (λ ys. ys ++ item ∷ []) v.fifo;
          producer_knows = tt;
          consumer_knows = snoc_consumer xs item s.consumer v.consumer_knows;
        }),
      )
  Step-Inv s t xs (see_item at some_item e) v = (
    xs,
    rw e (record {
      holds = v.holds;
      fifo = v.fifo;
      producer_knows = v.producer_knows;
      consumer_knows = ground (arith, empty_iff capacity blank s.ring xs v.holds);
    }),
  )
  Step-Inv s t xs (read_slot at e) v =
      let knows : 0 < length xs = rw at at v.consumer_knows in
      (
        xs,
        rw e (record {
          holds = v.holds;
          fifo = v.fifo;
          producer_knows = v.producer_knows;
          consumer_knows = oldest_slot s.ring xs v.holds knows;
        }),
      )
  Step-Inv s t xs (publish_read item at e) v =
      let (rest, w) = receive-Inv s item xs at v in (rest, rw e w)

  Reach-Inv : (t : System T) → 0 < capacity → Reach initial t → Kept t
  Reach-Inv t h here = ([], initial-Inv h)
  Reach-Inv t h (next {t = u} r step) = let (xs, v) = Reach-Inv u h r in Step-Inv u t xs step v

  -- However the two threads interleave, the items received are the first of the items sent, in
  -- order, none lost and none twice, and the ring holds the others, fewer than its capacity.
  pub Reach-in_order :
      (t : System T)
      → 0 < capacity
      → Reach initial t
      → (xs : List T) × (t.received ++ xs ≡ t.sent) × Holds capacity blank t.ring xs
  Reach-in_order t h r = let (xs, v) = Reach-Inv t h r in (xs, v.fifo, v.holds)

  -- While the consumer reads its slot, the slot that the producer may write is another.
  pub Reach-no_race :
      (t : System T)
      → 0 < capacity
      → Reach initial t
      → t.consumer ≡ item_seen
      → t.ring.write_idx ≢ t.ring.read_idx
  Reach-no_race t h r reading =
      let (xs, v) = Reach-Inv t h r in
      let knows : 0 < length xs = subst (ConsumerKnows xs) reading v.consumer_knows in
      ground (arith, empty_iff capacity blank t.ring xs v.holds)
