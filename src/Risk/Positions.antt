-- ===== src/Risk/Positions.antt =====
-- Who is credited by a fill, and what an accepted order may do to a position.
use lightning_lob.Risk.{
  RiskManager, pack_key, find_state, position, put_state, on_fill, SymbolParticipantState, signed,
  state_or_default, limits_for, check_state, no_reason, refresh_window, check_new_order, checked,
}
use lightning_lob.Types.{buy, sell}
use lightning_lob.Base.{
  ◌<◌, Bool, ◌^◌, ◌==◌, ◌≡◌, ◌&&◌, arith, if◌then◌else◌, some, ==_iff, ◌↔◌, [], ◌∷◌, true, false,
  refl, ℕ, none, Option, ◌∙◌, ap, sym,
}
use lightning_lob.Base.Int.{◌≤ℤ◌, neg_ℤ, ◌+ℤ◌, pos, int_laws}
use lightning_lob.Types.{Side, Quantity}

-- The key of the map determines the symbol and the participant, a `uint32_t` each.
pub pack_key-injective :
    (s t p q : ℕ) → p < 2 ^ 32 → q < 2 ^ 32 → pack_key s p ≡ pack_key t q → (s ≡ t) × (p ≡ q)
unfolding pack_key
pack_key-injective s t p q hp hq e = (omega arith, omega arith)

pub find_state-put_state :
    (k j : ℕ) (v : SymbolParticipantState) (m : RiskManager)
    → find_state j (put_state k v m) ≡ (if k == j then some v else find_state j m)
unfolding find_state put_state
find_state-put_state k j v [] = refl
find_state-put_state k j v ((i, w) ∷ m) = ground (arith, find_state-put_state k j v m)

-- The two pairs are one.
abbrev pub same_account : (s p t q : ℕ) → Bool
same_account s p t q = s == t && p == q

pack_key-same_account :
    (s p t q : ℕ) → p < 2 ^ 32 → q < 2 ^ 32 → (pack_key s p == pack_key t q) ≡ same_account s p t q
unfolding pack_key
pack_key-same_account s p t q hp hq = ground arith

-- A fill moves the position of its own symbol and participant by the signed quantity, limits or
-- none, and no other position.
pub position-on_fill :
    (m : RiskManager) (s p t q : ℕ) (side : Side) (quantity : Quantity)
    → p < 2 ^ 32
    → q < 2 ^ 32
    → position (on_fill m s p side quantity) t q
      ≡ (if same_account s p t q then position m t q +ℤ signed side quantity else position m t q)
unfolding position on_fill
position-on_fill m s p t q side quantity hp hq =
    rw (← pack_key-same_account s p t q hp hq) (cases (pack_key s p == pack_key t q) refl)
  where
    cases :
        (same : Bool)
        → (pack_key s p == pack_key t q) ≡ same
        → (state_or_default (find_state (pack_key t q) (on_fill m s p side quantity))).net_position
          ≡ (if same then position m t q +ℤ signed side quantity else position m t q)
    cases true e = rw (find_state-put_state, e, (==_iff _ _).0 e)
    cases false e = rw (find_state-put_state, e)

-- A fill keeps the limits and the order rate of every account.
pub limits_for-on_fill :
    (m : RiskManager) (s p t q : ℕ) (side : Side) (quantity : Quantity)
    → limits_for (on_fill m s p side quantity) t q ≡ limits_for m t q
unfolding limits_for on_fill
limits_for-on_fill m s p t q side quantity = cases (pack_key s p == pack_key t q) refl
  where
    cases :
        (same : Bool)
        → (pack_key s p == pack_key t q) ≡ same
        → (state_or_default (find_state (pack_key t q) (on_fill m s p side quantity))).limits
          ≡ (state_or_default (find_state (pack_key t q) m)).limits
    cases true e = rw (find_state-put_state, e, (==_iff _ _).0 e)
    cases false e = rw (find_state-put_state, e)

-- What `check_new_order` asks of an order, for an account that it knows.
pub record Permits (s : SymbolParticipantState) (side : Side) (quantity : Quantity) (now : ℕ)
    : Type 0 where
  pub size : quantity ≤ℤ s.limits.max_order_size
  pub above : neg_ℤ s.limits.max_position ≤ℤ s.net_position +ℤ signed side quantity
  pub below : s.net_position +ℤ signed side quantity ≤ℤ s.limits.max_position
  pub rate : (refresh_window s now).orders_in_window < s.limits.max_orders_per_second

-- The state is checked against exactly these four bounds.
pub check_state_iff :
    (s : SymbolParticipantState) (side : Side) (quantity : Quantity) (now : ℕ)
    → ((check_state s side quantity now).0 ≡ no_reason) ↔ Permits s side quantity now
unfolding check_state
check_state_iff s side quantity now = (λ h. ground arith, λ h. ground arith)

check_state-net_position :
    (s : SymbolParticipantState) (side : Side) (quantity : Quantity) (now : ℕ)
    → (check_state s side quantity now).1.net_position ≡ s.net_position
unfolding check_state
check_state-net_position s side quantity now = ground arith

-- A check moves no position.
pub position-check_new_order :
    (m : RiskManager) (s p t q : ℕ) (side : Side) (quantity : Quantity) (now : ℕ)
    → position (check_new_order m s p side quantity now).1 t q ≡ position m t q
unfolding position check_new_order
position-check_new_order m s p t q side quantity now =
    cases (find_state (pack_key s p) m) (pack_key s p == pack_key t q) refl refl
  where
    cases :
        (found : Option SymbolParticipantState) (same : Bool)
        → find_state (pack_key s p) m ≡ found
        → (pack_key s p == pack_key t q) ≡ same
        → (state_or_default (
            find_state
              (pack_key t q)
              (checked m (pack_key s p) side quantity now found).1)).net_position
          ≡ (state_or_default (find_state (pack_key t q) m)).net_position
    cases none same f e = refl
    cases (some s') true f e =
        rw (find_state-put_state, e)
          (check_state-net_position s' side quantity now
            ∙ ap (λ o. (state_or_default o).net_position) (sym f)
            ∙ ap (λ k. (state_or_default (find_state k m)).net_position) ((==_iff _ _).0 e))
    cases (some s') false f e = rw (find_state-put_state, e)

check_new_order-known :
    (m : RiskManager) (s p : ℕ) (side : Side) (quantity : Quantity) (now : ℕ)
    (t : SymbolParticipantState)
    → find_state (pack_key s p) m ≡ some t
    → ((check_new_order m s p side quantity now).0 ≡ (check_state t side quantity now).0)
      × (position m s p ≡ t.net_position)
unfolding check_new_order position
check_new_order-known m s p side quantity now t f = (
  ap (λ o. (checked m (pack_key s p) side quantity now o).0) f,
  ap (λ o. (state_or_default o).net_position) f,
)

part_within :
    (side : Side) (net max quantity filled : Quantity)
    → pos 0 ≤ℤ filled
    → filled ≤ℤ quantity
    → neg_ℤ max ≤ℤ net
    → net ≤ℤ max
    → neg_ℤ max ≤ℤ net +ℤ signed side quantity
    → net +ℤ signed side quantity ≤ℤ max
    → (neg_ℤ max ≤ℤ net +ℤ signed side filled) × (net +ℤ signed side filled ≤ℤ max)
unfolding signed
part_within buy net max quantity filled h1 h2 h3 h4 h5 h6 = (omega int_laws, omega int_laws)
part_within sell net max quantity filled h1 h2 h3 h4 h5 h6 = (omega int_laws, omega int_laws)

same_account_refl : (s p : ℕ) → same_account s p s p ≡ true
same_account_refl s p = ground arith

-- After an accepted order of a known account, whatever part of it is filled at once, a position
-- that was within the limit stays within it.
pub accepted_fill_within :
    (m : RiskManager) (s p : ℕ) (side : Side) (quantity filled : Quantity) (now : ℕ)
    (t : SymbolParticipantState)
    → p < 2 ^ 32
    → find_state (pack_key s p) m ≡ some t
    → (check_new_order m s p side quantity now).0 ≡ no_reason
    → neg_ℤ t.limits.max_position ≤ℤ t.net_position
    → t.net_position ≤ℤ t.limits.max_position
    → pos 0 ≤ℤ filled
    → filled ≤ℤ quantity
    → (let after = on_fill (check_new_order m s p side quantity now).1 s p side filled in
        (neg_ℤ t.limits.max_position ≤ℤ position after s p)
        × (position after s p ≤ℤ t.limits.max_position))
accepted_fill_within m s p side quantity filled now t hp f ok lo hi nonneg part =
    let (accepted, held) = check_new_order-known m s p side quantity now t f in
    let permits = (check_state_iff t side quantity now).0 (sym accepted ∙ ok) in
    rw
      (
        position-on_fill _ s p s p side filled hp hp,
        same_account_refl s p,
        position-check_new_order m s p s p side quantity now,
        held,
      )
      (part_within side t.net_position t.limits.max_position quantity filled nonneg part lo hi
        permits.above permits.below)
