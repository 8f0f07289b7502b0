-- ===== src/Http/Dispatcher/Tests.antt =====
-- Runs of the dispatcher, and the theorem at a concrete context.
use libcold.Base.{ℕ, ◌≡◌, ◌↔◌, refl, List, [], bytes_of, false}
use libcold.StringUtils.{split_to_views, split_loop, find_delim}
use libcold.Router.{
  new_router, add_servlet, add_filter, match_servlet, match_filters, match_chain, try_match,
  find_child, put_child, insert,
}
use libcold.Http.Status.{status_not_found}
use libcold.Http.Response.{new_response, set_status}
use libcold.Http.Request.{HttpRequest, new_raw_request}
use libcold.Http.Dispatcher.{
  HttpFilter, HttpServlet, ServletContext, do_filters, do_dispatcher, forward_to,
}
use libcold.Http.Dispatcher.Forward.{Forwarded, forward_to_iff}

abbrev request : HttpRequest
request = record {
  raw = new_raw_request;
  url = bytes_of "/";
  fragment = [];
  body = [];
  attributes = [];
  parameters = [];
  cookies = [];
}

abbrev guarded : HttpFilter
guarded (r, response) = ((r, set_status 403 response), false)

abbrev index : HttpServlet
index (r, response) = (r, set_status 201 response)

abbrev context : ServletContext
context = record {
  attributes = [];
  router =
      add_filter (bytes_of "/private/**") guarded
        (add_servlet (bytes_of "/index.html") index new_router);
}

abbrev answered : List ℕ → ℕ
answered url = (forward_to context url (request, new_response)).1.status

root_is_index : answered (bytes_of "/") ≡ 201
unfolding forward_to do_dispatcher do_filters match_filters match_servlet match_chain try_match
    add_filter add_servlet insert find_child put_child split_to_views split_loop find_delim
root_is_index = refl

private_is_guarded : answered (bytes_of "/private/a") ≡ 403
unfolding forward_to do_dispatcher do_filters match_filters match_servlet match_chain try_match
    add_filter add_servlet insert find_child put_child split_to_views split_loop find_delim
private_is_guarded = refl

other_is_not_found : answered (bytes_of "/other") ≡ status_not_found
unfolding forward_to do_dispatcher do_filters match_filters match_servlet match_chain try_match
    add_filter add_servlet insert find_child put_child split_to_views split_loop find_delim
other_is_not_found = refl

forward_to_iff_example :
    Forwarded context (bytes_of "/") (request, new_response) (request, set_status 201 new_response)
    ↔ (forward_to context (bytes_of "/") (request, new_response)
        ≡ (request, set_status 201 new_response))
forward_to_iff_example =
    forward_to_iff context (bytes_of "/") (request, new_response)
      (request, set_status 201 new_response)
