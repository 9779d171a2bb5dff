-- ===== src/IdIndexMap/Cycle.antt =====
-- Places on a circle of `n` slots: how far one is behind another.
use lightning_lob.IdIndexMap.{between}
use lightning_lob.Ring.Wrap.{mod_place}
use lightning_lob.Base.{
  true, false, inl, inr, arith, ℕ, if◌then◌else◌, ◌<◌, leb, ltb, ◌+◌, ◌≡◌, ◌≢◌, ◌-◌, ◌%◌, ◌⊎◌, ◌∙◌,
  Bool-cases, ltb→lt, ◌==◌,
}

-- The steps from `r` to `x`.
abbrev pub dist : (n r x : ℕ) → ℕ
dist n r x = if leb r x then x - r else x + n - r

-- The place `d` steps behind `r`.
abbrev pub step_to : (n r d : ℕ) → ℕ
step_to n r d = if ltb (r + d) n then r + d else r + d - n

pub next_step : (n r d : ℕ) → r < n → d < n → (step_to n r d + 1) % n ≡ step_to n r (d + 1)
next_step n r d r_in d_in =
    mod_place (step_to n r d) 1 n (ground arith) (omega arith) ∙ ground arith

pub next_dist :
    (n i j : ℕ) → i < n → j < n → dist n i j + 1 < n → dist n i ((j + 1) % n) ≡ dist n i j + 1
next_dist n i j i_in j_in room = rw (mod_place j 1 n j_in (omega arith)) (ground arith)

pub next_back : (n i j : ℕ) → i < n → j < n → dist n i j + 1 ≡ n → (j + 1) % n ≡ i
next_back n i j i_in j_in last = mod_place j 1 n j_in (omega arith) ∙ ground arith

pub next_closer :
    (n j e : ℕ) → j < n → e < n → 0 < dist n j e → dist n ((j + 1) % n) e + 1 ≡ dist n j e
next_closer n j e j_in e_in apart = rw (mod_place j 1 n j_in (omega arith)) (ground arith)

pub dist-lt : (n r x : ℕ) → r < n → x < n → dist n r x < n
dist-lt n r x r_in x_in = ground arith

pub dist_inj : (n r x y : ℕ) → r < n → x < n → y < n → dist n r x ≡ dist n r y → x ≡ y
dist_inj n r x y r_in x_in y_in e = ground arith

-- What is one step further is at the place, or was there before.
pub dist_suc :
    (n r d q : ℕ)
    → r < n
    → q < n
    → d < n
    → dist n r q < d + 1
    → (dist n r q < d) ⊎ (q ≡ step_to n r d)
dist_suc n r d q r_in q_in d_in h = elim (Bool-cases (ltb (dist n r q) d)) [
  | inl e ↦ inl (ltb→lt _ _ e)
  | inr e ↦ inr (ground arith)
]

pub dist-step_to : (n r d : ℕ) → r < n → d < n → dist n r (step_to n r d) ≡ d
dist-step_to n r d r_in d_in = ground arith

-- What is behind `i` and not as far as `p`, where `i` is before `p`, is before `p` too.
pub between_path :
    (n r i j p : ℕ)
    → r < n
    → i < n
    → j < n
    → p < n
    → dist n r i < dist n r p
    → 0 < dist n i j
    → dist n i j < dist n i p
    → dist n r j < dist n r p
between_path n r i j p r_in i_in j_in p_in h k l = ground arith

-- The test of `erase` tells whether the entry at `j` with the home `r` is nearer than the hole.
pub between_stays :
    (n i r j : ℕ)
    → i < n
    → r < n
    → j < n
    → i ≢ j
    → between i r j ≡ true
    → ¬ (dist n r i < dist n r j)
between_stays n i r j i_in r_in j_in apart e = ground arith

pub between_moves :
    (n i r j : ℕ) → i < n → r < n → j < n → i ≢ j → between i r j ≡ false → dist n r i < dist n r j
between_moves n i r j i_in r_in j_in apart e = ground arith

pub same_or_not : (a b : ℕ) → (a ≡ b) ⊎ (a ≢ b)
same_or_not a b = elim (Bool-cases (a == b)) [
  | inl e ↦ inl (ground arith)
  | inr e ↦ inr (ground arith)
]
