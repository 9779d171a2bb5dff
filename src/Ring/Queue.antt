-- ===== src/Ring/Queue.antt =====
-- The ring refines a bounded queue.
use mathlib.Core.List.{head?, tail}
use mathlib.Core.Path.{ap₂}
use native.Mathlib.Nat.{add-zero, mod-add-mod}
use lightning_lob.Ring.Wrap.{mod_above, next_apart, next_full, step_place, mod_place, mod_below}
use lightning_lob.Base.{
  get_or, if◌then◌else◌, ltb, ◌-◌, [], ◌∷◌, false, suc, some, inl, inr, refl, arith, ℕ, List, ◌<◌,
  length-replicate, length, ◌+◌, ◌≡◌, ◌==◌, sym, ◌%◌, ltb, set, not, if◌then◌else◌, ◌++◌,
  Bool-cases, length-append, ltb→lt, ap, ◌∙◌, get_or-set_self, length-set,
}
use lightning_lob.Ring.{new_ring, SpscRingBuffer, try_push, try_pop, size_approx}
use lightning_lob.Ring.Window.{window, Holds, window-set, window-wrap, window-snoc}

module _ {T : Type 0} (capacity : ℕ) (blank : T) where
  -- A new ring holds nothing.
  pub new_ring-Holds : 0 < capacity → Holds capacity blank (new_ring capacity blank) []
  unfolding new_ring window
  new_ring-Holds h = record {
    slots = length-replicate capacity blank;
    reads = h;
    room = h;
    writes = sym (mod_below 0 capacity h);
    items = refl;
  }

  -- The slot behind the items is written: the items stay.
  pub store-Holds :
      (r : SpscRingBuffer T) (xs : List T) (item : T)
      → Holds capacity blank r xs
      → Holds capacity blank (record r { buffer = set r.buffer r.write_idx item }) xs
        × (get_or (set r.buffer r.write_idx item) r.write_idx blank ≡ item)
  store-Holds r xs item h =
      let n = length xs in
      let at : r.write_idx < capacity = rw h.writes (omega (arith, h.reads)) in
      (
        record {
          slots = length-set r.buffer r.write_idx item ∙ h.slots;
          reads = h.reads;
          room = h.room;
          writes = h.writes;
          items = rw h.writes (
              ap (window capacity blank (set r.buffer ((r.read_idx + n) % capacity) item) n)
                (sym (add-zero r.read_idx))
              ∙ window-set capacity blank r.buffer r.read_idx n 0 n item h.reads (omega arith)
                  h.room
              ∙ ap (window capacity blank r.buffer n) (add-zero r.read_idx)
              ∙ h.items);
        },
        get_or-set_self r.buffer r.write_idx item blank (rw h.slots at),
      )

  -- The write index moves over the slot: the item joins the others.
  pub publish-Holds :
      (r : SpscRingBuffer T) (xs : List T) (item : T)
      → Holds capacity blank r xs
      → length xs + 1 < capacity
      → get_or r.buffer r.write_idx blank ≡ item
      → Holds capacity blank
          (record r { write_idx = (r.write_idx + 1) % capacity })
          (xs ++ item ∷ [])
  publish-Holds r xs item h small last =
      let n = length xs in
      let size : length (xs ++ item ∷ []) ≡ suc n = omega (arith, length-append xs (item ∷ [])) in
      record {
        slots = h.slots;
        reads = h.reads;
        room = omega arith;
        writes =
            ap (λ w. (w + 1) % capacity) h.writes
            ∙ step_place r.read_idx n capacity h.reads h.room
            ∙ ap (λ k. (r.read_idx + k) % capacity) (omega arith);
        items =
            ap (λ k. window capacity blank r.buffer k r.read_idx) size
            ∙ window-snoc capacity blank r.buffer n r.read_idx
            ∙ ap₂ (λ ys y. ys ++ y ∷ []) h.items (rw h.writes at last);
      }

  append-Holds :
      (r : SpscRingBuffer T) (xs : List T) (item : T)
      → Holds capacity blank r xs
      → length xs + 1 < capacity
      → Holds capacity blank
          (record r {
            write_idx = (r.write_idx + 1) % capacity;
            buffer = set r.buffer r.write_idx item;
          })
          (xs ++ item ∷ [])
  append-Holds r xs item h small =
      let (stored, last) = store-Holds r xs item h in publish-Holds _ xs item stored small last

  -- The test for a full ring.
  pub full_iff :
      (r : SpscRingBuffer T) (xs : List T)
      → Holds capacity blank r xs
      → ((r.write_idx + 1) % capacity == r.read_idx) ≡ not (ltb (length xs + 1) capacity)
  full_iff r xs h = elim (Bool-cases (ltb (length xs + 1) capacity)) [
    | inl e ↦
        let apart = next_apart r.read_idx (length xs) capacity h.reads (ltb→lt _ _ e) in
        rw (h.writes, e) (ground (arith, apart))
    | inr e ↦
        let back = next_full r.read_idx (length xs) capacity h.reads (ground (arith, h.room)) in
        rw (h.writes, e, back) (ground arith)
  ]

  -- A push that finds room appends the item; a full ring refuses it and holds
  -- what it held.
  pub try_push-Holds :
      (r : SpscRingBuffer T) (xs : List T) (item : T)
      → Holds capacity blank r xs
      → (let (pushed, after) = try_push capacity blank r item in
          (pushed ≡ ltb (length xs + 1) capacity)
          × Holds capacity blank after (if pushed then xs ++ item ∷ [] else xs))
  unfolding try_push
  try_push-Holds r xs item h = elim (Bool-cases (ltb (length xs + 1) capacity)) [
    | inl e ↦ rw (full_iff r xs h, e) (refl, append-Holds r xs item h (ltb→lt _ _ e))
    | inr e ↦ rw (full_iff r xs h, e) (refl, h)
  ]

  -- The test for an empty ring.
  pub empty_iff :
      (r : SpscRingBuffer T) (xs : List T)
      → Holds capacity blank r xs
      → (r.read_idx == r.write_idx) ≡ (length xs == 0)
  empty_iff r xs h =
      let place = mod_place r.read_idx (length xs) capacity h.reads (omega (arith, h.room)) in
      rw (h.writes, place) (ground (arith, h.reads, h.room))

  -- The oldest slot is given up.
  pub drop-Holds :
      (r : SpscRingBuffer T) (x : T) (xs : List T)
      → Holds capacity blank r (x ∷ xs)
      → (get_or r.buffer r.read_idx blank ≡ x)
        × Holds capacity blank (record r { read_idx = (r.read_idx + 1) % capacity }) xs
  unfolding window
  drop-Holds r x xs h =
      let i = r.read_idx in
      let n = length xs in
      let first : get_or r.buffer (i % capacity) blank ≡ x = cc (h.items) in
      let rest : window capacity blank r.buffer n (i + 1) ≡ xs = cc (h.items) in
      (
        rw (mod_below i capacity h.reads) at first,
        record {
          slots = h.slots;
          reads = omega (arith, h.reads);
          room = omega (arith, h.room);
          writes =
              h.writes
              ∙ ap (λ k. k % capacity) (omega arith)
              ∙ sym (mod-add-mod (i + 1) capacity n);
          items =
              window-wrap capacity blank r.buffer n ((i + 1) % capacity) (i + 1)
                (mod_below ((i + 1) % capacity) capacity (omega (arith, h.reads)))
              ∙ rest;
        },
      )

  -- A pop takes the oldest item, and takes none from an empty ring only.
  pub try_pop-Holds :
      (r : SpscRingBuffer T) (xs : List T)
      → Holds capacity blank r xs
      → (let (popped, after) = try_pop capacity blank r in
          (popped ≡ head? xs) × Holds capacity blank after (tail xs))
  unfolding try_pop
  try_pop-Holds r [] h = rw (empty_iff r [] h) (refl, h)
  try_pop-Holds r (x ∷ xs) h =
      let (first, after) = drop-Holds r x xs h in
      let nonempty : (r.read_idx == r.write_idx) ≡ false = empty_iff r (x ∷ xs) h ∙ ground arith in
      rw nonempty (ap some first, after)

  -- The size that is reported at rest is the number of items.
  pub size_approx-length :
      (r : SpscRingBuffer T) (xs : List T)
      → Holds capacity blank r xs
      → size_approx capacity blank r ≡ length xs
  unfolding size_approx
  size_approx-length r xs h = elim (Bool-cases (ltb (r.read_idx + n) capacity)) [
    | inl e ↦
        rw (h.writes, place, e)
          (mod_above (r.read_idx + n + capacity - r.read_idx) capacity (omega arith)
              (omega (arith, h.room))
            ∙ omega arith)
    | inr e ↦
        rw (h.writes, place, e)
          (ap (λ k. k % capacity) (ground (arith, h.reads)) ∙ mod_below n capacity h.room)
  ]
    where
      n : ℕ
      n = length xs

      place :
          (r.read_idx + n) % capacity
          ≡ (if ltb (r.read_idx + n) capacity then r.read_idx + n else r.read_idx + n - capacity)
      place = mod_place r.read_idx n capacity h.reads (omega (arith, h.room))
