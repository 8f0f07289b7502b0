-- ===== src/Base/StdMap.antt =====
-- std::map with std::string keys: an association list in the order of the keys.
use mathlib.Core.Path.{◌≡◌, refl}
use mathlib.Core.Bool.{Bool}
use mathlib.Core.List.{List, [], ◌∷◌}
use mathlib.Core.Option.{Option, none, some}
use Prim.Native.Nat.{ℕ}
use native.Mathlib.Omega.{arith}
use libcold.Base.Tests.{if◌then◌else◌, is_some, Bool-cases}
use libcold.Base.Lists.{Every}
use mathlib.Core.Logic.{inl, inr}
use libcold.Base.Text.{str_eq, str_lt, str_eq_iff}

abbrev pub StdMap {ℓ} : Type ℓ → Type ℓ
StdMap V = List (List ℕ × V)

module _ {ℓ} {V : Type ℓ} where
  -- find: the value, or end().
  unfoldable pub find : List ℕ → StdMap V → Option V
  find k [] = none
  find k ((j, v) ∷ m) = if str_eq j k then some v else find k m

  -- operator[] = v, insert_or_assign.
  unfoldable pub assign : List ℕ → V → StdMap V → StdMap V
  assign k v [] = (k, v) ∷ []
  assign k v ((j, w) ∷ m) =
      if str_eq j k
      then (k, v) ∷ m
      else if str_lt k j
      then (k, v) ∷ (j, w) ∷ m
      else (j, w) ∷ assign k v m

  unfoldable pub erase : List ℕ → StdMap V → StdMap V
  erase k [] = []
  erase k ((j, w) ∷ m) = if str_eq j k then erase k m else (j, w) ∷ erase k m

  abbrev pub contains : List ℕ → StdMap V → Bool
  contains k m = is_some (find k m)

  pub find-assign :
      (k j : List ℕ) (v : V) (m : StdMap V)
      → find j (assign k v m) ≡ (if str_eq k j then some v else find j m)
  unfolding find assign
  find-assign k j v [] = refl
  find-assign k j v ((i, w) ∷ m) =
      ground (arith, str_eq_iff k j, str_eq_iff i k, str_eq_iff i j, find-assign k j v m)

  pub find-erase :
      (k j : List ℕ) (m : StdMap V) → find j (erase k m) ≡ (if str_eq k j then none else find j m)
  unfolding find erase
  find-erase k j [] = ground arith
  find-erase k j ((i, w) ∷ m) =
      ground (arith, str_eq_iff k j, str_eq_iff i k, str_eq_iff i j, find-erase k j m)

pub Every-assign {ℓ κ} :
    {V : Type ℓ} (Holds : List ℕ × V → Type κ) (k : List ℕ) (v : V) (m : StdMap V)
    → Holds (k, v)
    → Every Holds m
    → Every Holds (assign k v m)
unfolding assign
Every-assign Holds k v [] new h = (new, tt)
Every-assign Holds k v ((j, w) ∷ m) new (here, there) = elim (Bool-cases (str_eq j k)) [
  | inl e ↦ rw e (new, there)
  | inr e ↦ rw e (elim (Bool-cases (str_lt k j)) [
    | inl l ↦ rw l (new, (here, there))
    | inr l ↦ rw l (here, Every-assign Holds k v m new there)
  ])
]
