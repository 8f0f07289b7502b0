-- ===== src/Http/Dispatcher.antt =====
-- cold/net/http/DispatcherServlet.h, ServletContext.h, HttpServlet.h and HttpFilter.h: a request
-- goes through the filters of its path to the servlet of its path. Filters and servlets are
-- parameters, as they are for the server; both may change the request and the response, and a filter
-- says whether the request may pass.
pub mod Forward
mod Tests
use libcold.Base.{
  ℕ, List, [], ◌∷◌, Bool, true, false, Option, none, some, if◌then◌else◌, str_eq, bytes_of,
}
use libcold.Base.StdMap.{StdMap, find, assign, erase, contains}
use libcold.Router.{Router, match_filters, match_servlet, add_filter, add_servlet}
use libcold.Http.Status.{status_not_found}
use libcold.Http.Response.{HttpResponse, set_status}
use libcold.Http.Request.{HttpRequest, get_value}

abbrev pub Exchange : Type 0
Exchange = HttpRequest × HttpResponse

abbrev pub HttpFilter : Type 0
HttpFilter = Exchange → Exchange × Bool

abbrev pub HttpServlet : Type 0
HttpServlet = Exchange → Exchange

-- DefaultHttpServlet
abbrev pub default_servlet : HttpServlet
default_servlet (request, response) = (request, set_status status_not_found response)

-- FunctionHttpServlet: none is an empty std::function.
abbrev pub function_servlet : Option HttpServlet → HttpServlet
function_servlet none exchange = exchange
function_servlet (some func) exchange = func exchange

-- The loop over the filters goes on where a filter lets the request pass.
abbrev pub if_passed : (Exchange → Exchange × Bool) → Exchange × Bool → Exchange × Bool
if_passed next (exchange, true) = next exchange
if_passed next (exchange, false) = (exchange, false)

unfoldable pub do_filters : List HttpFilter → Exchange → Exchange × Bool
do_filters [] exchange = (exchange, true)
do_filters (filter ∷ rest) exchange = if_passed (λ e. do_filters rest e) (filter exchange)

-- The servlet, where there is one, and whether there is.
abbrev pub handle_by : Option HttpServlet → Exchange → Exchange × Bool
handle_by none exchange = (exchange, false)
handle_by (some servlet) exchange = (servlet exchange, true)

abbrev pub dispatched : Option HttpServlet → Exchange × Bool → Exchange × Bool
dispatched servlet (exchange, true) = handle_by servlet exchange
dispatched servlet (exchange, false) = (exchange, true)

-- DefaultDispatcherServlet::DoDispathcer: false where no servlet was found.
unfoldable pub do_dispatcher : Router HttpFilter HttpServlet → List ℕ → Exchange → Exchange × Bool
do_dispatcher router url exchange =
    dispatched (match_servlet url router) (do_filters (match_filters url router) exchange)

-- ServletContext, its attributes and what it forwards to.
pub record ServletContext : Type 0 where
  pub attributes : StdMap (List ℕ)
  pub router : Router HttpFilter HttpServlet

abbrev pub has_attribute : List ℕ → ServletContext → Bool
has_attribute key c = contains key c.attributes

abbrev pub get_attribute : List ℕ → ServletContext → List ℕ
get_attribute key c = get_value key c.attributes

abbrev pub set_attribute : List ℕ → List ℕ → ServletContext → ServletContext
set_attribute key value c = record c { attributes = assign key value c.attributes }

abbrev pub remove_attribute : List ℕ → ServletContext → ServletContext
remove_attribute key c = record c { attributes = erase key c.attributes }

abbrev pub or_default : Exchange × Bool → Exchange
or_default (exchange, true) = exchange
or_default (exchange, false) = default_servlet exchange

abbrev pub index_url : List ℕ
index_url = bytes_of "/index.html"

abbrev pub or_else : (Exchange → Exchange) → Exchange × Bool → Exchange
or_else other (exchange, true) = exchange
or_else other (exchange, false) = other exchange

unfoldable pub forward_to : ServletContext → List ℕ → Exchange → Exchange
forward_to context url exchange =
    let other =
      if str_eq url (bytes_of "/")
      then (λ e. or_default (do_dispatcher context.router index_url e))
      else default_servlet in
    or_else other (do_dispatcher context.router url exchange)
