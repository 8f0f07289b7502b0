-- ===== src/Router/Paths.antt =====
-- What a trie says of each path, after the insertions.
use libcold.Base.{
  ℕ, ◌≡◌, refl, ap, ◌∙◌, List, [], ◌∷◌, Bool, true, false, ◌&&◌, ◌||◌, Option, none, some,
  Option-cases, Bool-cases, inl, inr, if◌then◌else◌, str_eq, str_eq_iff, arith,
}
use libcold.Router.{
  Node, node, Children, no_child, child, find_child, put_child, or_new, insert, entry, children,
}

abbrev pub path_eq : List (List ℕ) → List (List ℕ) → Bool
path_eq [] [] = true
path_eq [] (q ∷ qs) = false
path_eq (p ∷ ps) [] = false
path_eq (p ∷ ps) (q ∷ qs) = str_eq p q && path_eq ps qs

-- Whether the second path begins with the first one.
abbrev pub is_prefix : List (List ℕ) → List (List ℕ) → Bool
is_prefix [] ps = true
is_prefix (q ∷ qs) [] = false
is_prefix (q ∷ qs) (p ∷ ps) = str_eq p q && is_prefix qs ps

abbrev pub through {ℓ} : {A : Type 0} {B : Type ℓ} → B → (Node A → B) → Option (Node A) → B
through other next none = other
through other next (some n) = next n

module _ {A : Type 0} where
  pub find-put_child :
      (p q : List ℕ) (n : Node A) (cs : Children A)
      → find_child q (put_child p n cs) ≡ (if str_eq p q then some n else find_child q cs)
  unfolding find_child put_child
  find-put_child p q n no_child = refl
  find-put_child p q n (child name m rest) =
      ground
        (arith, str_eq_iff p q, str_eq_iff name p, str_eq_iff name q, find-put_child p q n rest)

  -- The entry at a path, or the entry of a new node.
  unfoldable pub entry_at : A → List (List ℕ) → Node A → A
  entry_at blank [] n = entry n
  entry_at blank (q ∷ qs) n = through blank (λ m. entry_at blank qs m) (find_child q (children n))

  -- Whether there is a node at a path.
  unfoldable pub has_node : List (List ℕ) → Node A → Bool
  has_node [] n = true
  has_node (q ∷ qs) n = through false (λ m. has_node qs m) (find_child q (children n))

  pub entry_at-new :
      (blank : A) (qs : List (List ℕ)) → entry_at blank qs (node blank no_child) ≡ blank
  unfolding entry_at find_child
  entry_at-new blank [] = refl
  entry_at-new blank (q ∷ qs) = refl

  entry_at-or_new :
      (blank : A) (q : List ℕ) (qs : List (List ℕ)) (a : A) (cs : Children A)
      → entry_at blank qs (or_new blank (find_child q cs)) ≡ entry_at blank (q ∷ qs) (node a cs)
  unfolding entry_at
  entry_at-or_new blank q qs a cs = elim (Option-cases (find_child q cs)) [
    | inl e ↦ rw e (entry_at-new blank qs)
    | inr (m, e) ↦ rw e
  ]

  pub entry_at-insert :
      (blank : A) (update : A → A) (ps qs : List (List ℕ)) (n : Node A)
      → entry_at blank qs (insert blank update ps n)
        ≡ (if path_eq ps qs then update (entry_at blank qs n) else entry_at blank qs n)
  unfolding insert entry_at
  entry_at-insert blank update [] [] (node a cs) = refl
  entry_at-insert blank update [] (q ∷ qs) (node a cs) = refl
  entry_at-insert blank update (p ∷ ps) [] (node a cs) = refl
  entry_at-insert blank update (p ∷ ps) (q ∷ qs) (node a cs) = elim (Bool-cases (str_eq p q)) [
    | inl h ↦
        rw (find-put_child p q (insert blank update ps (or_new blank (find_child p cs))) cs, h)
          (entry_at-insert blank update ps qs (or_new blank (find_child p cs))
            ∙ ap (λ x. if path_eq ps qs then update x else x)
                (entry_at-or_new blank p qs a cs
                  ∙ ap (λ r. entry_at blank (r ∷ qs) (node a cs)) ((str_eq_iff p q).0 h)))
    | inr h ↦
        rw (find-put_child p q (insert blank update ps (or_new blank (find_child p cs))) cs, h)
  ]

  pub has_node-new :
      (blank : A) (qs : List (List ℕ)) → has_node qs (node blank no_child) ≡ path_eq qs []
  unfolding has_node find_child
  has_node-new blank [] = refl
  has_node-new blank (q ∷ qs) = refl

  has_node-or_new :
      (blank : A) (q : List ℕ) (qs ps : List (List ℕ)) (a : A) (cs : Children A)
      → (is_prefix qs ps || has_node qs (or_new blank (find_child q cs)))
        ≡ (is_prefix qs ps || has_node (q ∷ qs) (node a cs))
  unfolding has_node find_child
  has_node-or_new blank q [] ps a cs = refl
  has_node-or_new blank q (r ∷ qs) ps a cs = elim (Option-cases (find_child q cs)) [
    | inl e ↦ rw e
    | inr (m, e) ↦ rw e
  ]

  pub has_node-insert :
      (blank : A) (update : A → A) (ps qs : List (List ℕ)) (n : Node A)
      → has_node qs (insert blank update ps n) ≡ (is_prefix qs ps || has_node qs n)
  unfolding insert has_node
  has_node-insert blank update [] [] (node a cs) = refl
  has_node-insert blank update [] (q ∷ qs) (node a cs) = refl
  has_node-insert blank update (p ∷ ps) [] (node a cs) = refl
  has_node-insert blank update (p ∷ ps) (q ∷ qs) (node a cs) = elim (Bool-cases (str_eq p q)) [
    | inl h ↦
        rw (find-put_child p q (insert blank update ps (or_new blank (find_child p cs))) cs, h)
          (has_node-insert blank update ps qs (or_new blank (find_child p cs))
            ∙ has_node-or_new blank p qs ps a cs
            ∙ ap (λ r. is_prefix qs ps || has_node (r ∷ qs) (node a cs)) ((str_eq_iff p q).0 h))
    | inr h ↦
        rw (find-put_child p q (insert blank update ps (or_new blank (find_child p cs))) cs, h)
  ]
