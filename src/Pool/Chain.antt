-- ===== src/Pool/Chain.antt =====
-- The doubly linked list of one price level, as the list of its pool indices.
use lightning_lob.Base.{[], ◌∷◌, refl, ℕ, List, ◌≢◌, ◌≡◌, ◌++◌, ◌<◌, ap, subst, sym, ◌∙◌}
use lightning_lob.Pool.{OrderPool, OrderNode, node}
use lightning_lob.Types.{null_index}
use lightning_lob.Pool.Nodes.{node_count}

abbrev pub prev_link : OrderNode → ℕ
prev_link n = n.prev

abbrev pub next_link : OrderNode → ℕ
next_link n = n.next

-- `i` is none of `xs`.
abbrev pub Apart : ℕ → List ℕ → Type 0
Apart i [] = Unit {0}
Apart i (x ∷ xs) = (i ≢ x) × Apart i xs

abbrev pub Distinct : List ℕ → Type 0
Distinct [] = Unit {0}
Distinct (x ∷ xs) = Apart x xs × Distinct xs

-- From `head` on the `next` links lead through `xs`, the `prev` links lead back to `prev`, and
-- `tail` is the last.
abbrev pub Chain : OrderPool → (prev : ℕ) → List ℕ → (head tail : ℕ) → Type 0
Chain pool prev [] head tail = (head ≡ null_index) × (tail ≡ prev)
Chain pool prev (x ∷ xs) head tail =
    (head ≡ x)
    × (x < node_count pool)
    × (x ≢ null_index)
    × ((node pool x).prev ≡ prev)
    × Chain pool x xs (node pool x).next tail

-- A chain depends on the links of its own nodes.
pub Chain-frame_links :
    (p q : OrderPool) (prev : ℕ) (xs : List ℕ) (head tail : ℕ)
    → node_count q ≡ node_count p
    → ((j : ℕ)
        → ¬ Apart j xs
        → (prev_link (node q j) ≡ prev_link (node p j))
          × (next_link (node q j) ≡ next_link (node p j)))
    → Chain p prev xs head tail
    → Chain q prev xs head tail
Chain-frame_links p q prev [] head tail same agree c = c
Chain-frame_links p q prev (x ∷ xs) head tail same agree (h, lt, ne, back, c) =
    let (e, f) = agree x (λ a. a.0 refl) in
    (
      h,
      rw same lt,
      ne,
      e ∙ back,
      rw f (Chain-frame_links p q x xs (node p x).next tail same (λ j a. agree j (λ b. a b.1)) c),
    )

pub Chain-frame :
    (p q : OrderPool) (prev : ℕ) (xs : List ℕ) (head tail : ℕ)
    → node_count q ≡ node_count p
    → ((j : ℕ) → ¬ Apart j xs → node q j ≡ node p j)
    → Chain p prev xs head tail
    → Chain q prev xs head tail
Chain-frame p q prev xs head tail same agree =
    Chain-frame_links p q prev xs head tail same
      λ j a. (ap prev_link (agree j a), ap next_link (agree j a))

-- The last of `xs`, or what stands before them.
abbrev pub last_or : ℕ → List ℕ → ℕ
last_or prev [] = prev
last_or prev (x ∷ xs) = last_or x xs

pub Chain-last :
    (p : OrderPool) (prev : ℕ) (xs : List ℕ) (head tail : ℕ)
    → Chain p prev xs head tail
    → tail ≡ last_or prev xs
Chain-last p prev [] head tail c = c.1
Chain-last p prev (x ∷ xs) head tail c = Chain-last p x xs _ tail c.4

-- The head is the first index, or null.
abbrev pub first_or_null : List ℕ → ℕ
first_or_null [] = null_index
first_or_null (x ∷ xs) = x

pub Chain-first :
    (p : OrderPool) (prev : ℕ) (xs : List ℕ) (head tail : ℕ)
    → Chain p prev xs head tail
    → head ≡ first_or_null xs
Chain-first p prev [] head tail c = c.0
Chain-first p prev (x ∷ xs) head tail c = c.0

pub Apart-last : (i x : ℕ) (xs : List ℕ) → Apart i (x ∷ xs) → i ≢ last_or x xs
Apart-last i x [] a = a.0
Apart-last i x (y ∷ ys) a = Apart-last i y ys a.1

pub Apart-append : (i : ℕ) (xs ys : List ℕ) → Apart i (xs ++ ys) → Apart i xs × Apart i ys
Apart-append i [] ys a = (tt, a)
Apart-append i (x ∷ xs) ys a = let (b, c) = Apart-append i xs ys a.1 in ((a.0, b), c)

Apart-join : (i : ℕ) (xs ys : List ℕ) → Apart i xs → Apart i ys → Apart i (xs ++ ys)
Apart-join i [] ys a b = b
Apart-join i (x ∷ xs) ys a b = (a.0, Apart-join i xs ys a.1 b)

Apart-first : (i : ℕ) (xs : List ℕ) → i ≢ null_index → Apart i xs → i ≢ first_or_null xs
Apart-first i [] ne a = ne
Apart-first i (x ∷ xs) ne a = a.0

-- The pool `q` is `p` with `idx` linked behind `tail`.
pub record Linked (p q : OrderPool) (tail idx : ℕ) : Type 0 where
  pub same_size : node_count q ≡ node_count p
  pub in_range : idx < node_count p
  pub not_null : idx ≢ null_index
  pub back : (node q idx).prev ≡ tail
  pub end : (node q idx).next ≡ null_index
  pub forward : tail ≢ null_index → node q tail ≡ record (node p tail) { next = idx }
  pub others : (j : ℕ) → j ≢ idx → j ≢ tail → node q j ≡ node p j

pub Chain-snoc :
    (p q : OrderPool) (idx prev x : ℕ) (xs : List ℕ) (head tail : ℕ)
    → Linked p q tail idx
    → Distinct (x ∷ xs)
    → Apart idx (x ∷ xs)
    → Chain p prev (x ∷ xs) head tail
    → Chain q prev (x ∷ xs ++ idx ∷ []) head idx
Chain-snoc p q idx prev x [] head tail l d a (h, lt, ne, back, (n, t)) =
    let at : node q x ≡ record (node p x) { next = idx } =
      subst (λ k. node q k ≡ record (node p k) { next = idx }) t
        (l.forward (λ e. ne (sym t ∙ e))) in
    (
      h,
      rw l.same_size lt,
      ne,
      ap prev_link at ∙ back,
      (ap next_link at, rw l.same_size l.in_range, l.not_null, l.back ∙ t, (l.end, refl)),
    )
Chain-snoc p q idx prev x (y ∷ ys) head tail l d a (h, lt, ne, back, c) =
    let last = Chain-last p x (y ∷ ys) _ tail c in
    let at : node q x ≡ node p x =
      l.others x (λ e. a.0 (sym e)) (λ e. Apart-last x y ys d.0 (e ∙ last)) in
    (
      h,
      rw l.same_size lt,
      ne,
      ap prev_link at ∙ back,
      rw at (Chain-snoc p q idx x y ys _ tail l d.1 a.1 c),
    )

-- The pool `q` is `p` with the neighbours of a node linked to one another.
pub record Bridged (p q : OrderPool) (before behind : ℕ) : Type 0 where
  pub same_size : node_count q ≡ node_count p
  pub forward : before ≢ null_index → node q before ≡ record (node p before) { next = behind }
  pub back : behind ≢ null_index → node q behind ≡ record (node p behind) { prev = before }
  pub others : (j : ℕ) → j ≢ before → j ≢ behind → node q j ≡ node p j

-- The index of the tail, when the last node may be gone.
abbrev pub tail_after : ℕ → List ℕ → ℕ → ℕ
tail_after before [] tail = before
tail_after before (x ∷ xs) tail = tail

-- The chain behind a removed node.
pub Chain-behind :
    (p q : OrderPool) (before i : ℕ) (xs : List ℕ) (head tail : ℕ)
    → Bridged p q before (first_or_null xs)
    → Distinct xs
    → Apart before xs
    → Chain p before (i ∷ xs) head tail
    → Chain q before xs (first_or_null xs) (tail_after before xs tail)
Chain-behind p q before i [] head tail b d a c = (refl, refl)
Chain-behind p q before i (x ∷ xs) head tail b d a (h, lt, ne, back, (h2, lt2, ne2, back2, c)) =
    let at = b.back ne2 in
    (
      refl,
      rw b.same_size lt2,
      ne2,
      ap prev_link at,
      rw (ap next_link at) (
          Chain-frame p q x xs (node p x).next tail b.same_size
            (λ j in_xs.
              b.others j (λ e. in_xs (subst (λ k. Apart k xs) (sym e) a.1))
                (λ e. in_xs (subst (λ k. Apart k xs) (sym e) d.0)))
            c),
    )

-- The chain around a removed node.
pub Chain-remove :
    (p q : OrderPool) (prev i x : ℕ) (ws xs : List ℕ) (head tail : ℕ)
    → Bridged p q (last_or x ws) (first_or_null xs)
    → Distinct (x ∷ ws ++ i ∷ xs)
    → Chain p prev (x ∷ ws ++ i ∷ xs) head tail
    → Chain q prev (x ∷ ws ++ xs) head (tail_after (last_or x ws) xs tail)
Chain-remove p q prev i x [] xs head tail b d (h, lt, ne, back, c) =
    let at = b.forward ne in
    (
      h,
      rw b.same_size lt,
      ne,
      ap prev_link at ∙ back,
      rw (ap next_link at) (Chain-behind p q x i xs (node p x).next tail b d.1.1 d.0.1 c),
    )
Chain-remove p q prev i x (w ∷ ws) xs head tail b d (h, lt, ne, back, c) =
    let apart = Apart-append x (w ∷ ws) (i ∷ xs) d.0 in
    let at : node q x ≡ node p x =
      b.others x (Apart-last x w ws apart.0) (Apart-first x xs ne apart.1.1) in
    (
      h,
      rw b.same_size lt,
      ne,
      ap prev_link at ∙ back,
      rw (ap next_link at) (Chain-remove p q x i w ws xs (node p x).next tail b d.1 c),
    )

-- What the links of a node in the middle are.
pub record Middle (p : OrderPool) (i before behind : ℕ) : Type 0 where
  pub in_range : i < node_count p
  pub not_null : i ≢ null_index
  pub prev_is : (node p i).prev ≡ before
  pub next_is : (node p i).next ≡ behind

pub Chain-Middle :
    (p : OrderPool) (prev i : ℕ) (ws xs : List ℕ) (head tail : ℕ)
    → Chain p prev (ws ++ i ∷ xs) head tail
    → Middle p i (last_or prev ws) (first_or_null xs)
Chain-Middle p prev i [] xs head tail (h, lt, ne, back, c) = record {
  in_range = lt;
  not_null = ne;
  prev_is = back;
  next_is = Chain-first p i xs _ tail c;
}
Chain-Middle p prev i (w ∷ ws) xs head tail (h, lt, ne, back, c) =
    Chain-Middle p w i ws xs (node p w).next tail c

pub Chain-last_range :
    (p : OrderPool) (prev : ℕ) (ws xs : List ℕ) (head tail : ℕ)
    → Chain p prev (ws ++ xs) head tail
    → (prev ≢ null_index → prev < node_count p)
    → last_or prev ws ≢ null_index
    → last_or prev ws < node_count p
Chain-last_range p prev [] xs head tail c h ne = h ne
Chain-last_range p prev (w ∷ ws) xs head tail (e, lt, nn, back, c) h ne =
    Chain-last_range p w ws xs (node p w).next tail c (λ _. lt) ne

pub Chain-first_range :
    (p : OrderPool) (prev : ℕ) (xs : List ℕ) (head tail : ℕ)
    → Chain p prev xs head tail
    → first_or_null xs ≢ null_index
    → first_or_null xs < node_count p
Chain-first_range p prev [] head tail c ne = absurd (ne refl)
Chain-first_range p prev (x ∷ xs) head tail c ne = c.1

pub Distinct-across :
    (x i : ℕ) (ws xs : List ℕ)
    → Distinct (x ∷ ws ++ i ∷ xs)
    → last_or x ws ≢ null_index
    → last_or x ws ≢ first_or_null xs
Distinct-across x i [] xs d ne = Apart-first x xs ne d.0.1
Distinct-across x i (w ∷ ws) xs d ne = Distinct-across w i ws xs d.1 ne

pub Distinct-remove : (i : ℕ) (ws xs : List ℕ) → Distinct (ws ++ i ∷ xs) → Distinct (ws ++ xs)
Distinct-remove i [] xs d = d.1
Distinct-remove i (w ∷ ws) xs d =
    let (a, b) = Apart-append w ws (i ∷ xs) d.0 in
    (Apart-join w ws xs a b.1, Distinct-remove i ws xs d.1)

pub Distinct-snoc : (i : ℕ) (xs : List ℕ) → Distinct xs → Apart i xs → Distinct (xs ++ i ∷ [])
Distinct-snoc i [] d a = (tt, tt)
Distinct-snoc i (x ∷ xs) d a =
    (Apart-join x xs (i ∷ []) d.0 ((λ e. a.0 (sym e)), tt), Distinct-snoc i xs d.1 a.1)

pub Distinct-suffix : (ws xs : List ℕ) → Distinct (ws ++ xs) → Distinct xs
Distinct-suffix [] xs d = d
Distinct-suffix (w ∷ ws) xs d = Distinct-suffix ws xs d.1

pub Chain-not_null :
    (p : OrderPool) (prev : ℕ) (xs : List ℕ) (head tail : ℕ)
    → Chain p prev xs head tail
    → Apart null_index xs
Chain-not_null p prev [] head tail c = tt
Chain-not_null p prev (x ∷ xs) head tail (h, lt, ne, back, c) =
    ((λ e. ne (sym e)), Chain-not_null p x xs (node p x).next tail c)

pub Chain-behind_range :
    (p : OrderPool) (prev i : ℕ) (ws xs : List ℕ) (head tail : ℕ)
    → Chain p prev (ws ++ i ∷ xs) head tail
    → first_or_null xs ≢ null_index
    → first_or_null xs < node_count p
Chain-behind_range p prev i [] xs head tail (h, lt, ne, back, c) k =
    Chain-first_range p i xs (node p i).next tail c k
Chain-behind_range p prev i (w ∷ ws) xs head tail (h, lt, ne, back, c) k =
    Chain-behind_range p w i ws xs (node p w).next tail c k

pub Chain-tail_range :
    (p : OrderPool) (prev x : ℕ) (xs : List ℕ) (head tail : ℕ)
    → Chain p prev (x ∷ xs) head tail
    → tail < node_count p
Chain-tail_range p prev x [] head tail (h, lt, ne, back, c) = rw c.1 lt
Chain-tail_range p prev x (y ∷ ys) head tail (h, lt, ne, back, c) =
    Chain-tail_range p x y ys (node p x).next tail c
