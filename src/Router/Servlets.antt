-- ===== src/Router/Servlets.antt =====
-- The servlet of a request: what TryMatch gives, in terms of the registrations.
use libcold.Base.{
  ℕ, ◌≡◌, refl, ap, ◌∙◌, List, [], ◌∷◌, Bool, true, false, ◌||◌, Option, none, some, Option-cases,
  inl, inr, if◌then◌else◌, arith, str_eq_refl,
}
use libcold.Router.{
  Node, find_child, entry, children, wildcard, entry_or, try_match, Router, new_router, parts_of,
  add_servlet, match_servlet,
}
use libcold.Router.Paths.{
  path_eq, is_prefix, entry_at, has_node, entry_at-insert, entry_at-new, has_node-new,
  has_node-insert, through,
}

-- The choice among the paths for which there are nodes: from the root on, the path of the request
-- is followed as long as there are nodes; where one is missing, the wildcard there is taken.
abbrev pub choose :
    {S : Type 0} → (List (List ℕ) → Bool) → (List (List ℕ) → Option S) → List (List ℕ) → Option S
choose known servlet [] = servlet []
choose known servlet (p ∷ ps) =
    let further = choose (λ q. known (p ∷ q)) (λ q. servlet (p ∷ q)) ps in
    if known (p ∷ []) then further else servlet (wildcard ∷ [])

path_eq_refl : (ps : List (List ℕ)) → path_eq ps ps ≡ true
path_eq_refl [] = refl
path_eq_refl (p ∷ ps) = ground (arith, str_eq_refl p, path_eq_refl ps)

module _ {S : Type 0} where
  entry_or-through :
      (o : Option (Node (Option S))) → entry_or none o ≡ through none (λ m. entry m) o
  entry_or-through none = refl
  entry_or-through (some n) = refl

  try_match-choose :
      (ps : List (List ℕ)) (n : Node (Option S))
      → try_match ps n ≡ choose (λ q. has_node q n) (λ q. entry_at none q n) ps
  unfolding try_match entry_at has_node
  try_match-choose [] n = refl
  try_match-choose (p ∷ ps) n = elim (Option-cases (find_child p (children n))) [
    | inl e ↦ rw e (entry_or-through (find_child wildcard (children n)))
    | inr (m, e) ↦ rw e (try_match-choose ps m)
  ]

  choose_ext :
      (k k' : List (List ℕ) → Bool) (s s' : List (List ℕ) → Option S) (ps : List (List ℕ))
      → ((q : List (List ℕ)) → k q ≡ k' q)
      → ((q : List (List ℕ)) → s q ≡ s' q)
      → choose k s ps ≡ choose k' s' ps
  choose_ext k k' s s' [] hk hs = hs []
  choose_ext k k' s s' (p ∷ ps) hk hs = ground (
    arith,
    hk (p ∷ []),
    hs (wildcard ∷ []),
    choose_ext (λ q. k (p ∷ q)) (λ q. k' (p ∷ q)) (λ q. s (p ∷ q)) (λ q. s' (p ∷ q)) ps
        (λ q. hk (p ∷ q)) (λ q. hs (p ∷ q)),
  )

  choose-known :
      (k : List (List ℕ) → Bool) (s : List (List ℕ) → Option S) (ps : List (List ℕ))
      → ((q : List (List ℕ)) → is_prefix q ps ≡ true → k q ≡ true)
      → choose k s ps ≡ s ps
  choose-known k s [] h = refl
  choose-known k s (p ∷ ps) h = rw (h (p ∷ []) (ground (arith, str_eq_refl p))) (
      choose-known (λ q. k (p ∷ q)) (λ q. s (p ∷ q)) ps
        (λ q e. h (p ∷ q) (ground (arith, e, str_eq_refl p))))

  -- The last registration for a path, and whether a registered path passes through one.
  abbrev pub latest : List (List ℕ) → List (List ℕ × S) → Option S → Option S
  latest path [] old = old
  latest path ((url, s) ∷ rest) old =
      latest path rest (if path_eq (parts_of url) path then some s else old)

  abbrev pub passes : List (List ℕ) → List (List ℕ × S) → Bool
  passes path [] = false
  passes path ((url, s) ∷ rest) = passes path rest || is_prefix path (parts_of url)

module _ {F S : Type 0} where
  abbrev pub add_servlets : List (List ℕ × S) → Router F S → Router F S
  add_servlets [] r = r
  add_servlets ((url, s) ∷ rest) r = add_servlets rest (add_servlet url s r)

  entry_at-add_servlets :
      (routes : List (List ℕ × S)) (path : List (List ℕ)) (r : Router F S)
      → entry_at none path (add_servlets routes r).servlet_root
        ≡ latest path routes (entry_at none path r.servlet_root)
  unfolding add_servlet
  entry_at-add_servlets [] path r = refl
  entry_at-add_servlets ((url, s) ∷ rest) path r =
      entry_at-add_servlets rest path (add_servlet url s r)
      ∙ ap (latest path rest)
          (entry_at-insert none (λ old. some s) (parts_of url) path r.servlet_root)

  has_node-add_servlets :
      (routes : List (List ℕ × S)) (path : List (List ℕ)) (r : Router F S)
      → has_node path (add_servlets routes r).servlet_root
        ≡ (passes path routes || has_node path r.servlet_root)
  unfolding add_servlet
  has_node-add_servlets [] path r = refl
  has_node-add_servlets ((url, s) ∷ rest) path r = ground (
    arith,
    has_node-add_servlets rest path (add_servlet url s r),
    has_node-insert none (λ old. some s) (parts_of url) path r.servlet_root,
  )

module _ (F S : Type 0) where
  -- After any registrations, the servlet of a request is found by following its path from the root
  -- as long as some registered path passes there, and then taking the last registration for the
  -- whole path or, where no registered path goes on, for the path `**` at that level. There is no
  -- return to a wildcard of a level above.
  pub match_servlet_correct :
      (routes : List (List ℕ × S)) (url : List ℕ)
      → match_servlet url (add_servlets routes (new_router {F = F} {S = S}))
        ≡ choose (λ q. passes q routes || path_eq q []) (λ q. latest q routes none) (parts_of url)
  unfolding match_servlet
  match_servlet_correct routes url =
      try_match-choose (parts_of url) (add_servlets routes new_router).servlet_root
      ∙ choose_ext _ _ _ _ (parts_of url)
          (λ q.
            has_node-add_servlets routes q new_router
            ∙ ap (λ b. passes q routes || b) (has_node-new none q))
          (λ q.
            entry_at-add_servlets routes q new_router ∙ ap (latest q routes) (entry_at-new none q))
