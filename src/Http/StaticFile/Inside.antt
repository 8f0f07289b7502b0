-- ===== src/Http/StaticFile/Inside.antt =====
-- Which files are opened.
use libcold.Base.{
  ℕ, ◌≡◌, List, [], ◌∷◌, ◌++◌, Every, Bool, true, false, none, some, ◌⊎◌, ◌==◌, if◌then◌else◌,
  str_eq, bytes_of,
}
use libcold.Http.Response.{HttpResponse, set_status}
use libcold.Http.Status.{status_not_found, status_internal_server_error}
use libcold.Http.RequestParser.Message.{two_dots}
use libcold.Http.StaticFile.{FileSystem, StaticFileBody, index_if_root}

-- The names between the slashes of a path.
abbrev pub push_name : ℕ → List (List ℕ) → List (List ℕ)
push_name c [] = (c ∷ []) ∷ []
push_name c (name ∷ names) = (c ∷ name) ∷ names

unfoldable pub names_of : List ℕ → List (List ℕ)
names_of [] = [] ∷ []
names_of (c ∷ s) = let names = names_of s in if c == b'/' then [] ∷ names else push_name c names

-- No name leads to the directory above.
abbrev pub StaysBelow : List ℕ → Type 0
StaysBelow path = Every (λ name. str_eq name (bytes_of "..") ≡ false) (names_of path)

begins_dot : List (List ℕ) → Bool
begins_dot [] = false
begins_dot (name ∷ names) = str_eq name (bytes_of ".")

-- A file that was opened: its path is the root and what the request names, index.html for a path
-- that is one slash; the path of the request has no two dots beside each other, and none of its
-- names leads to the directory above.
pub record IsInside (fs : FileSystem) (path root full : List ℕ) (size : ℕ) : Type 0 where
  pub clean : two_dots path ≡ false
  pub place : full ≡ root ++ index_if_root path
  pub below : StaysBelow (index_if_root path)
  pub readable : fs.readable full ≡ true
  pub sized : fs.file_size full ≡ some size
  pub opens : fs.opens full ≡ true

-- Two dots, or no regular file that all may read.
abbrev pub IsMissing : FileSystem → List ℕ → List ℕ → Type 0
IsMissing fs path root = (two_dots path ≡ true) ⊎ (fs.readable (root ++ index_if_root path) ≡ false)

-- A file that is there, but has no size or does not open.
abbrev pub IsBroken : FileSystem → List ℕ → List ℕ → Type 0
IsBroken fs path root =
    let full = root ++ index_if_root path in
    (two_dots path ≡ false)
    × (fs.readable full ≡ true)
    × ((fs.file_size full ≡ none) ⊎ (fs.opens full ≡ false))

unfoldable pub Outcome :
    FileSystem → List ℕ → List ℕ → HttpResponse → StaticFileBody × HttpResponse → Type 0
Outcome fs path root response (body, response') = elim body.opened [
  | some full ↦ IsInside fs path root full body.size × (response' ≡ response)
  | none ↦
      (IsMissing fs path root × (response' ≡ set_status status_not_found response))
      ⊎ (IsBroken fs path root × (response' ≡ set_status status_internal_server_error response))
]
