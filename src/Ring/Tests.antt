-- ===== src/Ring/Tests.antt =====
-- The ring and its two threads on small inputs.
use lightning_lob.Ring.{SpscRingBuffer, new_ring, try_push}
use lightning_lob.Ring.Threads.{
  System, Reach, initial, here, next, see_room, store_slot, publish_write, see_item, producer_idle,
  room_seen, slot_stored, item_seen, Reach-in_order, Reach-no_race,
}
use lightning_lob.Base.{[], ◌∷◌, false, refl, arith, ℕ, ◌≡◌, List, ◌≢◌, ◌++◌, true, if◌then◌else◌}
use lightning_lob.Ring.Window.{window, Holds}
use lightning_lob.Ring.Queue.{try_push-Holds}

-- A ring of four slots whose items have wrapped.
abbrev wrapped : SpscRingBuffer ℕ
wrapped = record { write_idx = 1; read_idx = 3; buffer = 6 ∷ 0 ∷ 0 ∷ 5 ∷ [] }

wrapped-Holds : Holds 4 0 wrapped (5 ∷ 6 ∷ [])
unfolding window
wrapped-Holds = record {
  slots = refl;
  reads = omega arith;
  room = omega arith;
  writes = refl;
  items = refl;
}

try_push-Holds_example :
    (let (pushed, after) = try_push 4 0 wrapped 7 in
      (pushed ≡ true) × Holds 4 0 after (if pushed then 5 ∷ 6 ∷ 7 ∷ [] else 5 ∷ 6 ∷ []))
try_push-Holds_example = try_push-Holds 4 0 wrapped (5 ∷ 6 ∷ []) 7 wrapped-Holds

full_ring : (try_push 4 0 (try_push 4 0 wrapped 7).1 8).0 ≡ false
unfolding try_push
full_ring = refl

-- The producer pushes 9, step by step.
abbrev looked : System ℕ
looked = record (initial 2 0) { producer = room_seen 9 }

abbrev stored : System ℕ
stored = record looked {
  ring = record { write_idx = 0; read_idx = 0; buffer = 9 ∷ 0 ∷ [] };
  producer = slot_stored 9;
}

abbrev published : System ℕ
published = record looked {
  ring = record { write_idx = 1; read_idx = 0; buffer = 9 ∷ 0 ∷ [] };
  producer = producer_idle;
  sent = 9 ∷ [];
}

-- And the consumer sees that there is an item.
abbrev seen : System ℕ
seen = record published { consumer = item_seen }

looked-Reach : Reach 2 0 (initial 2 0) looked
unfolding new_ring
looked-Reach = next {t = initial 2 0} here (see_room 9 refl refl refl)

stored-Reach : Reach 2 0 (initial 2 0) stored
unfolding new_ring
stored-Reach = next {t = looked} looked-Reach (store_slot 9 refl refl)

published-Reach : Reach 2 0 (initial 2 0) published
unfolding new_ring
published-Reach = next {t = stored} stored-Reach (publish_write 9 refl refl)

seen-Reach : Reach 2 0 (initial 2 0) seen
unfolding new_ring
seen-Reach = next {t = published} published-Reach (see_item refl refl refl)

Reach-in_order_example : (xs : List ℕ) × (seen.received ++ xs ≡ seen.sent) × Holds 2 0 seen.ring xs
Reach-in_order_example = Reach-in_order 2 0 seen (omega arith) seen-Reach

Reach-no_race_example : seen.ring.write_idx ≢ seen.ring.read_idx
Reach-no_race_example = Reach-no_race 2 0 seen (omega arith) seen-Reach refl
