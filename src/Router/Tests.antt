-- ===== src/Router/Tests.antt =====
-- Runs of the router, and the theorems at concrete registrations.
use libcold.Base.{ℕ, ◌≡◌, refl, List, [], ◌∷◌, none, some, bytes_of}
use libcold.StringUtils.{split_to_views, split_loop, find_delim}
use libcold.Router.{
  Router, new_router, match_servlet, match_filters, add_servlet, add_filter, match_chain, try_match,
  find_child, put_child, insert, parts_of,
}
use libcold.Router.Filters.{add_filters, registered, gather, patterns, match_filters_correct}
use libcold.Router.Servlets.{add_servlets, latest, passes, choose, match_servlet_correct}
use libcold.Router.Paths.{path_eq}
use libcold.Base.{◌||◌}

abbrev routes : List (List ℕ × ℕ)
routes =
    (bytes_of "/**", 1) ∷ (bytes_of "/a/b", 2) ∷ (bytes_of "/a/**", 3) ∷ (bytes_of "/d/e", 4) ∷ []

abbrev routed : Router ℕ ℕ
routed = add_servlets routes (add_filters routes new_router)

-- Both wildcards apply to a path below them, the outer one first.
filters_of_path : match_filters (bytes_of "/a/b") routed ≡ 1 ∷ 3 ∷ 2 ∷ []
unfolding match_filters match_chain add_filter add_servlet insert find_child put_child
    split_to_views split_loop find_delim
filters_of_path = refl

servlet_of_wildcard : match_servlet (bytes_of "/a/c") routed ≡ some 3
unfolding match_servlet try_match add_filter add_servlet insert find_child put_child split_to_views
    split_loop find_delim
servlet_of_wildcard = refl

-- The wildcard at the root is not taken below a path that is registered.
servlet_without_return : match_servlet (bytes_of "/d/c") routed ≡ none
unfolding match_servlet try_match add_filter add_servlet insert find_child put_child split_to_views
    split_loop find_delim
servlet_without_return = refl

match_filters_correct_example :
    match_filters (bytes_of "/a/b") (add_filters routes (new_router {F = ℕ} {S = ℕ}))
    ≡ gather (λ q. registered q routes) (patterns (parts_of (bytes_of "/a/b")))
match_filters_correct_example = match_filters_correct ℕ ℕ routes (bytes_of "/a/b")

match_servlet_correct_example :
    match_servlet (bytes_of "/a/c") (add_servlets routes (new_router {F = ℕ} {S = ℕ}))
    ≡ choose
        (λ q. passes q routes || path_eq q [])
        (λ q. latest q routes none)
        (parts_of (bytes_of "/a/c"))
match_servlet_correct_example = match_servlet_correct ℕ ℕ routes (bytes_of "/a/c")
