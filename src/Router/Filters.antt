-- ===== src/Router/Filters.antt =====
-- The filters of a request: what MatchChain gives, in terms of the registrations.
use libcold.Base.{
  ℕ, ◌≡◌, refl, sym, ap, ◌∙◌, List, [], ◌∷◌, ◌++◌, append_assoc, append-nil, Option, none, some,
  Option-cases, Bool-cases, inl, inr, if◌then◌else◌, arith,
}
use libcold.Router.{
  Node, find_child, entry, children, wildcard, entry_or, match_chain, Router, new_router, parts_of,
  add_filter, match_filters,
}
use libcold.Router.Paths.{path_eq, entry_at, entry_at-insert, entry_at-new, through}

abbrev pub under : List ℕ → List (List (List ℕ)) → List (List (List ℕ))
under p [] = []
under p (qs ∷ rest) = (p ∷ qs) ∷ under p rest

-- The paths whose filters apply to a request: a wildcard at each level, and the path itself.
abbrev pub patterns : List (List ℕ) → List (List (List ℕ))
patterns [] = [] ∷ []
patterns (p ∷ ps) = (wildcard ∷ []) ∷ under p (patterns ps)

abbrev pub gather : {F : Type 0} → (List (List ℕ) → List F) → List (List (List ℕ)) → List F
gather filters [] = []
gather filters (q ∷ rest) = filters q ++ gather filters rest

module _ {F : Type 0} where
  gather-under :
      (filters : List (List ℕ) → List F) (p : List ℕ) (rest : List (List (List ℕ)))
      → gather filters (under p rest) ≡ gather (λ q. filters (p ∷ q)) rest
  gather-under filters p [] = refl
  gather-under filters p (q ∷ rest) = ap (◌++◌ (filters (p ∷ q))) (gather-under filters p rest)

  gather_ext :
      (f g : List (List ℕ) → List F) (rest : List (List (List ℕ)))
      → ((q : List (List ℕ)) → f q ≡ g q)
      → gather f rest ≡ gather g rest
  gather_ext f g [] e = refl
  gather_ext f g (q ∷ rest) e = ground (arith, e q, gather_ext f g rest e)

  gather_none : (rest : List (List (List ℕ))) → gather {F = F} (λ q. []) rest ≡ []
  gather_none [] = refl
  gather_none (q ∷ rest) = gather_none rest

  entry_or-through : (o : Option (Node (List F))) → entry_or [] o ≡ through [] (λ m. entry m) o
  entry_or-through none = refl
  entry_or-through (some n) = refl

  match_chain-gather :
      (ps : List (List ℕ)) (n : Node (List F))
      → match_chain ps n ≡ gather (λ q. entry_at [] q n) (patterns ps)
  unfolding match_chain entry_at
  match_chain-gather [] n = sym (append-nil (entry n))
  match_chain-gather (p ∷ ps) n =
      rw
        (
          gather-under (λ q. entry_at [] q n) p (patterns ps),
          entry_or-through (find_child wildcard (children n)),
        )
        (ap (◌++◌ (through [] (λ m. entry m) (find_child wildcard (children n))))
          (elim (Option-cases (find_child p (children n))) [
            | inl e ↦ rw e (sym (gather_none (patterns ps)))
            | inr (m, e) ↦ rw e (match_chain-gather ps m)
          ]))

  -- The registrations of filters, in order.
  abbrev pub registered : List (List ℕ) → List (List ℕ × F) → List F
  registered path [] = []
  registered path ((url, f) ∷ rest) =
      if path_eq (parts_of url) path then f ∷ registered path rest else registered path rest

module _ {F S : Type 0} where
  abbrev pub add_filters : List (List ℕ × F) → Router F S → Router F S
  add_filters [] r = r
  add_filters ((url, f) ∷ rest) r = add_filters rest (add_filter url f r)

  entry_at-add_filters :
      (routes : List (List ℕ × F)) (path : List (List ℕ)) (r : Router F S)
      → entry_at [] path (add_filters routes r).filter_root
        ≡ entry_at [] path r.filter_root ++ registered path routes
  unfolding add_filter
  entry_at-add_filters [] path r = sym (append-nil (entry_at [] path r.filter_root))
  entry_at-add_filters ((url, f) ∷ rest) path r =
      entry_at-add_filters rest path (add_filter url f r)
      ∙ rw (entry_at-insert [] (λ fs. fs ++ f ∷ []) (parts_of url) path r.filter_root)
          (elim (Bool-cases (path_eq (parts_of url) path)) [
            | inl e ↦ rw (e, append_assoc)
            | inr e ↦ rw e
          ])

module _ (F S : Type 0) where
  -- After any registrations, the filters of a request are those of the path `**` below each of the
  -- path's levels but the last, from the root on, and then those of the path itself; filters of one
  -- path are in the order of their registration.
  pub match_filters_correct :
      (routes : List (List ℕ × F)) (url : List ℕ)
      → match_filters url (add_filters routes (new_router {F = F} {S = S}))
        ≡ gather (λ q. registered q routes) (patterns (parts_of url))
  unfolding match_filters
  match_filters_correct routes url =
      match_chain-gather (parts_of url) (add_filters routes new_router).filter_root
      ∙ gather_ext _ _ (patterns (parts_of url)) (λ q.
        entry_at-add_filters routes q new_router
        ∙ ap (λ fs. fs ++ registered q routes) (entry_at-new [] q))
