-- ===== src/StringUtils/Split.antt =====
-- What SplitToViews gives for a delimiter of one character.
use libcold.Base.{
  subst, ℕ, zero, suc, ◌<◌, ◌≡◌, refl, ap, List, [], ◌∷◌, ◌++◌, Bool, true, false, none, some, ◌==◌,
  Every, if◌then◌else◌, length, take, drop, is_empty, Option-cases, inl, inr, arith, length-drop,
  Bool-cases, ◌||◌,
}
use libcold.StringUtils.{find_delim, split_loop, split_to_views, push_view, one_later, split_round}

abbrev pub member : ℕ → List ℕ → Bool
member d [] = false
member d (c ∷ s) = c == d || member d s

-- The views with the delimiter put between them.
abbrev pub join : ℕ → List (List ℕ) → List ℕ
join d [] = []
join d (v ∷ []) = v
join d (v ∷ w ∷ vs) = v ++ d ∷ join d (w ∷ vs)

-- The views without the empty ones.
abbrev pub nonempty : List (List ℕ) → List (List ℕ)
nonempty [] = []
nonempty (v ∷ vs) = if is_empty v then nonempty vs else v ∷ nonempty vs

abbrev one : ℕ → List ℕ
one d = d ∷ []

find_delim-step :
    (d c : ℕ) (s : List ℕ)
    → find_delim (one d) (c ∷ s) ≡ (if c == d then some 0 else one_later (find_delim (one d) s))
unfolding find_delim
find_delim-step d c s = ground arith

find_delim-nil : (d : ℕ) → find_delim (one d) [] ≡ none
unfolding find_delim
find_delim-nil d = refl

-- Where `find` stops.
record Found (d : ℕ) (s : List ℕ) (i : ℕ) : Type 0 where
  inside : i < length s
  pieces : take i s ++ d ∷ drop (suc i) s ≡ s
  clean : member d (take i s) ≡ false

Found-suc :
    (d c : ℕ) (s : List ℕ) (i : ℕ) → (c == d) ≡ false → Found d s i → Found d (c ∷ s) (suc i)
Found-suc d c s i h f = record {
  inside = omega (arith, f.inside);
  pieces = ap (◌∷◌ c) f.pieces;
  clean = ground (arith, f.clean);
}

Found-zero : (d c : ℕ) (s : List ℕ) → (c == d) ≡ true → Found d (c ∷ s) 0
Found-zero d c s h = record { inside = omega arith; pieces = ground arith; clean = refl }

found : (d : ℕ) (s : List ℕ) (i : ℕ) → find_delim (one d) s ≡ some i → Found d s i
found d [] i e = absurd (ground (arith, e, find_delim-nil d))
found d (c ∷ s) i e = elim (Bool-cases (c == d)) [
  | inl h ↦ subst (Found d (c ∷ s)) (ground (arith, e, find_delim-step d c s)) (Found-zero d c s h)
  | inr h ↦ elim (Option-cases (find_delim (one d) s)) [
    | inl n ↦ absurd (ground (arith, e, find_delim-step d c s))
    | inr (j, l) ↦
        subst (Found d (c ∷ s)) (ground (arith, e, find_delim-step d c s))
          (Found-suc d c s j h (found d s j l))
  ]
]

missing : (d : ℕ) (s : List ℕ) → find_delim (one d) s ≡ none → member d s ≡ false
missing d [] e = refl
missing d (c ∷ s) e = elim (Option-cases (find_delim (one d) s)) [
  | inl n ↦ ground (arith, e, find_delim-step d c s, missing d s n)
  | inr (j, l) ↦ absurd (ground (arith, e, find_delim-step d c s))
]

split_loop-none :
    (d k : ℕ) (s : List ℕ) (skip : Bool)
    → find_delim (one d) s ≡ none
    → split_loop (suc k) s (one d) skip ≡ push_view skip s []
unfolding split_loop
split_loop-none d k s skip e = ap (split_round s skip (λ t. split_loop k t (one d) skip)) e

split_loop-some :
    (d k : ℕ) (s : List ℕ) (skip : Bool) (i : ℕ)
    → find_delim (one d) s ≡ some i
    → split_loop (suc k) s (one d) skip
      ≡ push_view skip (take i s) (split_loop k (drop (suc i) s) (one d) skip)
unfolding split_loop
split_loop-some d k s skip i e = ap (split_round s skip (λ t. split_loop k t (one d) skip)) e

-- All rounds but the last push a view, so the list that follows is not empty.
drop-fits :
    (d k i : ℕ) (s : List ℕ)
    → length s < suc (suc k)
    → Found d s i
    → length (drop (suc i) s) < suc k
drop-fits d k i s h f = omega (arith, length-drop (suc i) s, f.inside)

-- A round pushes a view where no empty ones are skipped.
join-push :
    (d k : ℕ) (v s : List ℕ)
    → join d (v ∷ split_loop (suc k) s (one d) false)
      ≡ v ++ d ∷ join d (split_loop (suc k) s (one d) false)
join-push d k v s = elim (Option-cases (find_delim (one d) s)) [
  | inl e ↦ rw (split_loop-none d k s false e)
  | inr (i, e) ↦ rw (split_loop-some d k s false i e)
]

join-split_loop :
    (d k : ℕ) (s : List ℕ) → length s < suc k → join d (split_loop (suc k) s (one d) false) ≡ s
join-split_loop d zero [] h = rw (split_loop-none d 0 [] false (find_delim-nil d))
join-split_loop d zero (c ∷ s) h = absurd (omega arith)
join-split_loop d (suc k) s h = elim (Option-cases (find_delim (one d) s)) [
  | inl e ↦ rw (split_loop-none d (suc k) s false e)
  | inr (i, e) ↦
      rw
        (
          split_loop-some d (suc k) s false i e,
          join-push d k (take i s) (drop (suc i) s),
          join-split_loop d k (drop (suc i) s) (drop-fits d k i s h (found d s i e)),
        )
        (found d s i e).pieces
]

push-skip :
    (v : List ℕ) (rest : List (List ℕ))
    → push_view true v (nonempty rest) ≡ nonempty (push_view false v rest)
push-skip v rest = refl

skip-split_loop :
    (d k : ℕ) (s : List ℕ) → split_loop k s (one d) true ≡ nonempty (split_loop k s (one d) false)
unfolding split_loop
skip-split_loop d zero s = refl
skip-split_loop d (suc k) s = elim (Option-cases (find_delim (one d) s)) [
  | inl e ↦ rw (split_loop-none d k s true e, split_loop-none d k s false e)
  | inr (i, e) ↦ rw (
    split_loop-some d k s true i e,
    split_loop-some d k s false i e,
    skip-split_loop d k (drop (suc i) s),
  )
]

abbrev pub IsClean : ℕ → List ℕ → Type 0
IsClean d v = member d v ≡ false

split_loop-IsClean : (d k : ℕ) (s : List ℕ) → Every (IsClean d) (split_loop k s (one d) false)
unfolding split_loop
split_loop-IsClean d zero s = tt
split_loop-IsClean d (suc k) s = elim (Option-cases (find_delim (one d) s)) [
  | inl e ↦ rw (split_loop-none d k s false e) (missing d s e, tt)
  | inr (i, e) ↦
      rw (split_loop-some d k s false i e)
        ((found d s i e).clean, split_loop-IsClean d k (drop (suc i) s))
]

join-split_to_views : (d : ℕ) (s : List ℕ) → join d (split_to_views s (d ∷ []) false) ≡ s
unfolding split_to_views
join-split_to_views d [] = refl
join-split_to_views d (c ∷ s) = join-split_loop d (length (c ∷ s)) (c ∷ s) (omega arith)

split_to_views-IsClean : (d : ℕ) (s : List ℕ) → Every (IsClean d) (split_to_views s (d ∷ []) false)
unfolding split_to_views
split_to_views-IsClean d [] = tt
split_to_views-IsClean d (c ∷ s) = split_loop-IsClean d (suc (length (c ∷ s))) (c ∷ s)

skip-split_to_views :
    (d : ℕ) (s : List ℕ)
    → split_to_views s (d ∷ []) true ≡ nonempty (split_to_views s (d ∷ []) false)
unfolding split_to_views
skip-split_to_views d [] = refl
skip-split_to_views d (c ∷ s) = skip-split_loop d (suc (length (c ∷ s))) (c ∷ s)

-- For a delimiter of one character, the views of SplitToViews joined by it give the string back,
-- no view has the delimiter in it, and with skipEmpty the views are those that are not empty, in
-- the same order.
pub split_to_views_correct :
    (d : ℕ) (s : List ℕ)
    → (join d (split_to_views s (d ∷ []) false) ≡ s)
      × (Every (IsClean d) (split_to_views s (d ∷ []) false))
      × (split_to_views s (d ∷ []) true ≡ nonempty (split_to_views s (d ∷ []) false))
split_to_views_correct d s =
    (join-split_to_views d s, split_to_views-IsClean d s, skip-split_to_views d s)
