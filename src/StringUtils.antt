-- ===== src/StringUtils.antt =====
-- cold/util/StringUtils.h: cutting a string at a delimiter.
pub mod Split
mod Tests
use libcold.Base.{
  ℕ, zero, suc, ◌+◌, List, [], ◌∷◌, Bool, true, false, ◌&&◌, Option, none, some, ◌==◌,
  if◌then◌else◌, length, take, drop, is_empty,
}

abbrev pub starts_with : List ℕ → List ℕ → Bool
starts_with [] s = true
starts_with (d ∷ ds) [] = false
starts_with (d ∷ ds) (c ∷ s) = c == d && starts_with ds s

abbrev pub one_later : Option ℕ → Option ℕ
one_later none = none
one_later (some i) = some (suc i)

-- std::string_view::find: the first place of the delimiter.
unfoldable pub find_delim : List ℕ → List ℕ → Option ℕ
find_delim delim [] = if is_empty delim then some 0 else none
find_delim delim (c ∷ s) =
    if starts_with delim (c ∷ s) then some 0 else one_later (find_delim delim s)

abbrev pub push_view : Bool → List ℕ → List (List ℕ) → List (List ℕ)
push_view skip_empty view rest = if skip_empty && is_empty view then rest else view ∷ rest

-- One round of the loop, on the string from `start` on and with the place that `find` gave.
abbrev pub split_round : List ℕ → Bool → (List ℕ → List (List ℕ)) → Option ℕ → List (List ℕ)
split_round s skip next none = push_view skip s []
split_round s skip next (some end) = push_view skip (take end s) (next (drop (suc end) s))

-- A round takes one byte at least away, so the bytes and one more round are enough.
unfoldable pub split_loop : ℕ → List ℕ → List ℕ → Bool → List (List ℕ)
split_loop zero s delim skip = []
split_loop (suc k) s delim skip =
    split_round s skip (λ rest. split_loop k rest delim skip) (find_delim delim s)

unfoldable pub split_to_views : List ℕ → List ℕ → Bool → List (List ℕ)
split_to_views s delim skip =
    let views = split_loop (suc (length s)) s delim skip in if is_empty s then [] else views
