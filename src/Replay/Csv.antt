-- ===== src/Replay/Csv.antt =====
-- `split` against the join that it undoes.
use lightning_lob.Replay.{find_delim, split_from, split}
use lightning_lob.Base.{
  [], ◌∷◌, true, false, zero, suc, none, some, refl, arith, List, ℕ, take, ◌++◌, ◌≡◌, length, ◌==◌,
  drop, All, ◌<◌, Bool, ap, Option, ◌+◌, length-append, if◌then◌else◌, subst, ◌∙◌, sym,
}
use lightning_lob.Names.{Bytes}
use mathlib.Core.Option

-- The fields with the delimiter between them.
unfoldable pub join : List Bytes → (delim : ℕ) → Bytes
join [] delim = []
join (f ∷ []) delim = f
join (f ∷ g ∷ fs) delim = f ++ delim ∷ join (g ∷ fs) delim

abbrev pub Lacks : ℕ → Bytes → Type 0
Lacks delim field = find_delim delim field ≡ none

-- The bytes around the first delimiter.
abbrev Around : ℕ → Bytes → ℕ → Type 0
Around delim line i =
    (line ≡ take i line ++ delim ∷ drop (suc i) line)
    × Lacks delim (take i line)
    × (length (drop (suc i) line) < length line)

find_delim-Around :
    (delim : ℕ) (line : Bytes) (i : ℕ) → find_delim delim line ≡ some i → Around delim line i
find_delim-Around delim [] i e = absurd (cc e)
find_delim-Around delim (c ∷ cs) i e =
    cases (c == delim) (find_delim delim cs) refl refl e (find_delim-Around delim cs)
  where
    cases :
        (here : Bool) (later : Option ℕ)
        → (c == delim) ≡ here
        → find_delim delim cs ≡ later
        → (if here then some 0 else Option.map suc later) ≡ some i
        → ((k : ℕ) → find_delim delim cs ≡ some k → Around delim cs k)
        → Around delim (c ∷ cs) i
    cases true later h l e ih =
        let at : 0 ≡ i = cc e in
        let same : c ≡ delim = ground arith in
        subst (Around delim (c ∷ cs)) at (ap (λ d. d ∷ cs) same, refl, omega arith)
    cases false none h l e ih = absurd (cc e)
    cases false (some k) h l e ih =
        let at : suc k ≡ i = cc e in
        let (line, none_before, shorter) = ih k l in
        subst (Around delim (c ∷ cs)) at
          (ap (◌∷◌ c) line, rw (h, none_before) refl, omega (arith, shorter))

split_from-pieces :
    (rounds delim : ℕ) (line : Bytes)
    → length line < rounds
    → (join (split_from rounds delim line) delim ≡ line)
      × All (Lacks delim) (split_from rounds delim line)
      × (0 < length (split_from rounds delim line))
unfolding split_from join
split_from-pieces zero delim line h = absurd (omega arith)
split_from-pieces (suc rounds) delim line h =
    cases (find_delim delim line) refl (split_from-pieces rounds delim)
  where
    joined :
        (f : Bytes) (fs : List Bytes)
        → 0 < length fs
        → join (f ∷ fs) delim ≡ f ++ delim ∷ join fs delim
    joined f [] some_field = absurd (omega arith)
    joined f (g ∷ gs) some_field = refl

    cases :
        (at : Option ℕ)
        → find_delim delim line ≡ at
        → ((r : Bytes)
            → length r < rounds
            → (join (split_from rounds delim r) delim ≡ r)
              × All (Lacks delim) (split_from rounds delim r)
              × (0 < length (split_from rounds delim r)))
        → (let fields : List Bytes = elim at [
          | none ↦ line ∷ []
          | some i ↦ take i line ∷ split_from rounds delim (drop (suc i) line)
        ] in
            (join fields delim ≡ line) × All (Lacks delim) fields × (0 < length fields))
    cases none e ih = (refl, (e, tt), omega arith)
    cases (some i) e ih =
        let (line_is, none_before, shorter) = find_delim-Around delim line i e in
        let rest = drop (suc i) line in
        let (back, pieces, some_field) = ih rest (omega (arith, shorter)) in
        (
          joined (take i line) (split_from rounds delim rest) some_field
              ∙ ap (λ r. take i line ++ delim ∷ r) back
              ∙ sym line_is,
          (none_before, pieces),
          omega arith,
        )

-- Whatever a line is, its fields hold no delimiter, there is one at least, and joined with the
-- delimiter they are the line.
pub join-split :
    (line : Bytes) (delim : ℕ)
    → (join (split line delim) delim ≡ line)
      × All (Lacks delim) (split line delim)
      × (0 < length (split line delim))
unfolding split
join-split line delim = split_from-pieces (length line + 1) delim line (omega arith)

Lacks-cons :
    (delim c : ℕ) (cs : Bytes) → Lacks delim (c ∷ cs) → ((c == delim) ≡ false) × Lacks delim cs
Lacks-cons delim c cs h = cases (c == delim) (find_delim delim cs) h
  where
    cases :
        (here : Bool) (later : Option ℕ)
        → (if here then some 0 else Option.map suc later) ≡ none
        → (here ≡ false) × (later ≡ none)
    cases true later h = absurd (cc h)
    cases false none h = (refl, refl)
    cases false (some k) h = absurd (cc h)

find_delim-append :
    (delim : ℕ) (f rest : Bytes)
    → Lacks delim f
    → find_delim delim (f ++ delim ∷ rest) ≡ some (length f)
find_delim-append delim [] rest h =
    let same : (delim == delim) ≡ true = ground arith in rw same refl
find_delim-append delim (c ∷ cs) rest h =
    let (apart, lacks) = Lacks-cons delim c cs h in
    rw (apart, find_delim-append delim cs rest lacks) refl

take-length-append : (f rest : Bytes) → take (length f) (f ++ rest) ≡ f
take-length-append [] rest = refl
take-length-append (c ∷ cs) rest = ap (◌∷◌ c) (take-length-append cs rest)

drop-length-append :
    (f : Bytes) (delim : ℕ) (rest : Bytes) → drop (suc (length f)) (f ++ delim ∷ rest) ≡ rest
drop-length-append [] delim rest = refl
drop-length-append (c ∷ cs) delim rest = drop-length-append cs delim rest

split_from-join :
    (rounds delim : ℕ) (f : Bytes) (fs : List Bytes)
    → All (Lacks delim) (f ∷ fs)
    → length (join (f ∷ fs) delim) < rounds
    → split_from rounds delim (join (f ∷ fs) delim) ≡ f ∷ fs
unfolding split_from join
split_from-join zero delim f fs ok h = absurd (omega arith)
split_from-join (suc rounds) delim f [] ok h = rw (split_from, ok.0) refl
split_from-join (suc rounds) delim f (g ∷ gs) ok h =
    let rest = join (g ∷ gs) delim in
    let shorter : length rest < rounds = omega (arith, h, length-append f (delim ∷ rest)) in
    rw
      (
        split_from,
        find_delim-append delim f rest ok.0,
        take-length-append f (delim ∷ rest),
        drop-length-append f delim rest,
        split_from-join rounds delim g gs ok.1 shorter,
      )
      refl

-- Fields of which there is one at least, and none of which holds the delimiter, are what `split` finds
-- in their join.
pub split-join :
    (f : Bytes) (fs : List Bytes) (delim : ℕ)
    → All (Lacks delim) (f ∷ fs)
    → split (join (f ∷ fs) delim) delim ≡ f ∷ fs
unfolding split
split-join f fs delim ok = split_from-join _ delim f fs ok (omega arith)
