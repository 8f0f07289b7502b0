-- ===== src/Http/Status/Tests.antt =====
-- Runs of the status table.
use libcold.Base.{
  ℕ, ◌≡◌, refl, List, [], ◌∷◌, Option, none, some, bytes_of, Bool, true, false, ◌&&◌, str_eq,
}
use libcold.Http.Status.{http_status_to_http_status_msg, http_status_table}

abbrev is_message : List ℕ → Option (List ℕ) → Bool
is_message m none = false
is_message m (some w) = str_eq w m

abbrev rows_found : List (ℕ × List ℕ) → Bool
rows_found [] = true
rows_found ((code, message) ∷ rows) =
    is_message message (http_status_to_http_status_msg code) && rows_found rows

-- No code stands twice in the table: each row is found by its code.
all_rows_found : rows_found http_status_table ≡ true
unfolding http_status_to_http_status_msg http_status_table
all_rows_found = refl

message_of_404 : http_status_to_http_status_msg 404 ≡ some (bytes_of "Not Found")
unfolding http_status_to_http_status_msg http_status_table
message_of_404 = refl
