-- ===== src/Router.antt =====
-- cold/net/http/Router.h: the tries of filters and of servlets. Both are one type here, with the
-- servlet of a node, or its filters, as the entry.
pub mod Paths
pub mod Filters
pub mod Servlets
mod Tests
use libcold.Base.{ℕ, List, [], ◌∷◌, ◌++◌, true, Option, none, some, if◌then◌else◌, str_eq, bytes_of}
use libcold.StringUtils.{split_to_views}

mutual
  pub data Node (A : Type 0) : Type 0 where
    node : A → Children A → Node A

  pub data Children (A : Type 0) : Type 0 where
    no_child : Children A
    child : List ℕ → Node A → Children A → Children A

abbrev pub wildcard : List ℕ
wildcard = bytes_of "**"

module _ {A : Type 0} where
  -- children_.find
  unfoldable pub find_child : List ℕ → Children A → Option (Node A)
  find_child p no_child = none
  find_child p (child name n rest) = if str_eq name p then some n else find_child p rest

  -- The node of a part is replaced, or a new one is inserted.
  unfoldable pub put_child : List ℕ → Node A → Children A → Children A
  put_child p n no_child = child p n no_child
  put_child p n (child name m rest) =
      if str_eq name p then child p n rest else child name m (put_child p n rest)

  abbrev pub or_new : A → Option (Node A) → Node A
  or_new blank none = node blank no_child
  or_new blank (some n) = n

  -- Insert: `blank` is the entry of a new node, and `update` the change at the last node.
  unfoldable pub insert : A → (A → A) → List (List ℕ) → Node A → Node A
  insert blank update [] (node a cs) = node (update a) cs
  insert blank update (p ∷ ps) (node a cs) =
      node a (put_child p (insert blank update ps (or_new blank (find_child p cs))) cs)

  abbrev pub entry : Node A → A
  entry (node a cs) = a

  abbrev pub children : Node A → Children A
  children (node a cs) = cs

  abbrev pub entry_or : A → Option (Node A) → A
  entry_or blank none = blank
  entry_or blank (some n) = entry n

-- ServletNode::TryMatch
abbrev pub or_wildcard :
    {S : Type 0} → (Node (Option S) → Option S) → Option S → Option (Node (Option S)) → Option S
or_wildcard next other none = other
or_wildcard next other (some n) = next n

unfoldable pub try_match : {S : Type 0} → List (List ℕ) → Node (Option S) → Option S
try_match [] n = entry n
try_match (p ∷ ps) n =
    or_wildcard (λ m. try_match ps m) (entry_or none (find_child wildcard (children n)))
      (find_child p (children n))

-- FilterNode::MatchChain
abbrev pub chain_on : {F : Type 0} → (Node (List F) → List F) → Option (Node (List F)) → List F
chain_on next none = []
chain_on next (some n) = next n

unfoldable pub match_chain : {F : Type 0} → List (List ℕ) → Node (List F) → List F
match_chain [] n = entry n
match_chain (p ∷ ps) n =
    entry_or [] (find_child wildcard (children n))
    ++ chain_on (λ m. match_chain ps m) (find_child p (children n))

-- Router
pub record Router (F S : Type 0) : Type 0 where
  pub filter_root : Node (List F)
  pub servlet_root : Node (Option S)

abbrev pub new_router : {F S : Type 0} → Router F S
new_router = record { filter_root = node [] no_child; servlet_root = node none no_child }

abbrev pub parts_of : List ℕ → List (List ℕ)
parts_of url = split_to_views url (bytes_of "/") true

unfoldable pub add_filter : {F S : Type 0} → List ℕ → F → Router F S → Router F S
add_filter url f r = record r {
  filter_root = insert [] (λ fs. fs ++ f ∷ []) (parts_of url) r.filter_root;
}

unfoldable pub add_servlet : {F S : Type 0} → List ℕ → S → Router F S → Router F S
add_servlet url s r = record r {
  servlet_root = insert none (λ old. some s) (parts_of url) r.servlet_root;
}

unfoldable pub match_filters : {F S : Type 0} → List ℕ → Router F S → List F
match_filters url r = match_chain (parts_of url) r.filter_root

unfoldable pub match_servlet : {F S : Type 0} → List ℕ → Router F S → Option S
match_servlet url r = try_match (parts_of url) r.servlet_root
