-- ===== src/Http/Dispatcher/Forward.antt =====
-- What becomes of a request: the steps of the dispatcher as relations, and that the code takes them.
use libcold.Base.{
  ℕ, ◌≡◌, ◌↔◌, refl, ap, ◌∙◌, subst, List, [], ◌∷◌, Bool, true, false, Option, none, some,
  if◌then◌else◌, str_eq, bytes_of,
}
use libcold.Router.{Router, match_filters, match_servlet}
use libcold.Http.Dispatcher.{
  Exchange, HttpFilter, HttpServlet, default_servlet, if_passed, do_filters, handle_by, dispatched,
  do_dispatcher, ServletContext, or_default, or_else, index_url, forward_to,
}

-- The filters in their order, up to the first that does not let the request pass.
pub data Filtered : List HttpFilter → Exchange → Exchange → Bool → Type 0 where
  all_passed : (e : Exchange) → Filtered [] e e true
  passed :
      (f : HttpFilter) (fs : List HttpFilter) (e e' e'' : Exchange) (b : Bool)
      → f e ≡ (e', true)
      → Filtered fs e' e'' b
      → Filtered (f ∷ fs) e e'' b
  stopped :
      (f : HttpFilter) (fs : List HttpFilter) (e e' : Exchange)
      → f e ≡ (e', false)
      → Filtered (f ∷ fs) e e' false

-- The filters and then the servlet; false where the filters let the request pass and there is none.
pub data Dispatched (router : Router HttpFilter HttpServlet) (url : List ℕ)
    : Exchange → Exchange → Bool → Type 0 where
  refused :
      (e e' : Exchange)
      → Filtered (match_filters url router) e e' false
      → Dispatched router url e e' true
  served :
      (e e' : Exchange) (servlet : HttpServlet)
      → Filtered (match_filters url router) e e' true
      → match_servlet url router ≡ some servlet
      → Dispatched router url e (servlet e') true
  unmatched :
      (e e' : Exchange)
      → Filtered (match_filters url router) e e' true
      → match_servlet url router ≡ none
      → Dispatched router url e e' false

abbrev is_root_url : List ℕ → Bool
is_root_url url = str_eq url (bytes_of "/")

-- For the root without a servlet the index page is tried; else the response is that nothing is found.
pub data Forwarded (context : ServletContext) (url : List ℕ) : Exchange → Exchange → Type 0 where
  found : (e e' : Exchange) → Dispatched context.router url e e' true → Forwarded context url e e'
  not_found :
      (e e' : Exchange)
      → Dispatched context.router url e e' false
      → str_eq url (bytes_of "/") ≡ false
      → Forwarded context url e (default_servlet e')
  index_found :
      (e e' e'' : Exchange)
      → Dispatched context.router url e e' false
      → str_eq url (bytes_of "/") ≡ true
      → Dispatched context.router index_url e' e'' true
      → Forwarded context url e e''
  index_not_found :
      (e e' e'' : Exchange)
      → Dispatched context.router url e e' false
      → str_eq url (bytes_of "/") ≡ true
      → Dispatched context.router index_url e' e'' false
      → Forwarded context url e (default_servlet e'')

Filtered-if_passed :
    (f : HttpFilter) (fs : List HttpFilter) (e : Exchange) (r : Exchange × Bool)
    → f e ≡ r
    → ((e' : Exchange) → Filtered fs e' (do_filters fs e').0 (do_filters fs e').1)
    → Filtered
        (f ∷ fs)
        e
        (if_passed (λ x. do_filters fs x) r).0
        (if_passed (λ x. do_filters fs x) r).1
Filtered-if_passed f fs e (e', true) h later =
    passed f fs e e' (do_filters fs e').0 (do_filters fs e').1 h (later e')
Filtered-if_passed f fs e (e', false) h later = stopped f fs e e' h

do_filters-Filtered :
    (fs : List HttpFilter) (e : Exchange) → Filtered fs e (do_filters fs e).0 (do_filters fs e).1
unfolding do_filters
do_filters-Filtered [] e = all_passed e
do_filters-Filtered (f ∷ fs) e =
    Filtered-if_passed f fs e (f e) refl (λ e'. do_filters-Filtered fs e')

do_filters-of_Filtered :
    (fs : List HttpFilter) (e e' : Exchange) (b : Bool)
    → Filtered fs e e' b
    → do_filters fs e ≡ (e', b)
unfolding do_filters
do_filters-of_Filtered fs e e' b (all_passed _) = refl
do_filters-of_Filtered _ _ _ _ (passed f fs e e' e'' b h rest) =
    ap (if_passed (λ x. do_filters fs x)) h ∙ do_filters-of_Filtered fs e' e'' b rest
do_filters-of_Filtered _ _ _ _ (stopped f fs e e' h) = ap (if_passed (λ x. do_filters fs x)) h

module _ (router : Router HttpFilter HttpServlet) (url : List ℕ) where
  Dispatched-handle_by :
      (e e' : Exchange) (servlet : Option HttpServlet)
      → Filtered (match_filters url router) e e' true
      → match_servlet url router ≡ servlet
      → Dispatched router url e (handle_by servlet e').0 (handle_by servlet e').1
  Dispatched-handle_by e e' none f h = unmatched e e' f h
  Dispatched-handle_by e e' (some servlet) f h = served e e' servlet f h

  Dispatched-dispatched :
      (e e' : Exchange) (b : Bool)
      → Filtered (match_filters url router) e e' b
      → Dispatched router url e
          (dispatched (match_servlet url router) (e', b)).0
          (dispatched (match_servlet url router) (e', b)).1
  Dispatched-dispatched e e' true f = Dispatched-handle_by e e' (match_servlet url router) f refl
  Dispatched-dispatched e e' false f = refused e e' f

  do_dispatcher-Dispatched :
      (e : Exchange)
      → Dispatched router url e (do_dispatcher router url e).0 (do_dispatcher router url e).1
  unfolding do_dispatcher
  do_dispatcher-Dispatched e =
      Dispatched-dispatched e (do_filters (match_filters url router) e).0
        (do_filters (match_filters url router) e).1
        (do_filters-Filtered (match_filters url router) e)

  do_dispatcher-of_Dispatched :
      (e e' : Exchange) (b : Bool)
      → Dispatched router url e e' b
      → do_dispatcher router url e ≡ (e', b)
  unfolding do_dispatcher
  do_dispatcher-of_Dispatched _ _ _ (refused e e' f) =
      ap (dispatched (match_servlet url router))
        (do_filters-of_Filtered (match_filters url router) e e' false f)
  do_dispatcher-of_Dispatched _ _ _ (served e e' servlet f h) =
      ap (dispatched (match_servlet url router))
        (do_filters-of_Filtered (match_filters url router) e e' true f)
      ∙ ap (λ s. handle_by s e') h
  do_dispatcher-of_Dispatched _ _ _ (unmatched e e' f h) =
      ap (dispatched (match_servlet url router))
        (do_filters-of_Filtered (match_filters url router) e e' true f)
      ∙ ap (λ s. handle_by s e') h

module _ (context : ServletContext) (url : List ℕ) where
  abbrev router : Router HttpFilter HttpServlet
  router = context.router

  abbrev other : Bool → Exchange → Exchange
  other root =
      if root then (λ e. or_default (do_dispatcher router index_url e)) else default_servlet

  Forwarded-index :
      (e e' e'' : Exchange) (b : Bool)
      → Dispatched router url e e' false
      → str_eq url (bytes_of "/") ≡ true
      → Dispatched router index_url e' e'' b
      → Forwarded context url e (or_default (e'', b))
  Forwarded-index e e' e'' true d r i = index_found e e' e'' d r i
  Forwarded-index e e' e'' false d r i = index_not_found e e' e'' d r i

  Forwarded-other :
      (e e' : Exchange) (root : Bool)
      → str_eq url (bytes_of "/") ≡ root
      → Dispatched router url e e' false
      → Forwarded context url e (other root e')
  Forwarded-other e e' true r d =
      Forwarded-index e e' (do_dispatcher router index_url e').0
        (do_dispatcher router index_url e').1 d r (do_dispatcher-Dispatched router index_url e')
  Forwarded-other e e' false r d = not_found e e' d r

  Forwarded-or_else :
      (e e' : Exchange) (b : Bool)
      → Dispatched router url e e' b
      → Forwarded context url e (or_else (other (str_eq url (bytes_of "/"))) (e', b))
  Forwarded-or_else e e' true d = found e e' d
  Forwarded-or_else e e' false d = Forwarded-other e e' (str_eq url (bytes_of "/")) refl d

  forward_to-Forwarded : (e : Exchange) → Forwarded context url e (forward_to context url e)
  unfolding forward_to
  forward_to-Forwarded e =
      Forwarded-or_else e (do_dispatcher router url e).0 (do_dispatcher router url e).1
        (do_dispatcher-Dispatched router url e)

  or_else-dispatched :
      (e e' : Exchange) (b : Bool)
      → Dispatched router url e e' b
      → forward_to context url e ≡ or_else (other (str_eq url (bytes_of "/"))) (e', b)
  unfolding forward_to
  or_else-dispatched e e' b d =
      ap (or_else (other (str_eq url (bytes_of "/"))))
        (do_dispatcher-of_Dispatched router url e e' b d)

  forward_to-of_Forwarded :
      (e e' : Exchange) → Forwarded context url e e' → forward_to context url e ≡ e'
  forward_to-of_Forwarded _ _ (found e e' d) = or_else-dispatched e e' true d
  forward_to-of_Forwarded _ _ (not_found e e' d r) =
      or_else-dispatched e e' false d ∙ ap (λ b. other b e') r
  forward_to-of_Forwarded _ _ (index_found e e' e'' d r i) =
      or_else-dispatched e e' false d
      ∙ ap (λ b. other b e') r
      ∙ ap or_default (do_dispatcher-of_Dispatched router index_url e' e'' true i)
  forward_to-of_Forwarded _ _ (index_not_found e e' e'' d r i) =
      or_else-dispatched e e' false d
      ∙ ap (λ b. other b e') r
      ∙ ap or_default (do_dispatcher-of_Dispatched router index_url e' e'' false i)

  -- ForwardTo ends with one request and response exactly if the steps lead to them: the filters of
  -- the path in order, each on what the one before left, up to the first that does not let the
  -- request pass, which ends it; then the servlet of the path; where there is none, for the root
  -- the same with the index page, and else the answer that nothing was found.
  pub forward_to_iff :
      (e e' : Exchange) → Forwarded context url e e' ↔ (forward_to context url e ≡ e')
  forward_to_iff e e' = (
    forward_to-of_Forwarded e e',
    λ h. subst (Forwarded context url e) h (forward_to-Forwarded e),
  )
