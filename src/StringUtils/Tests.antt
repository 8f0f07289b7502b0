-- ===== src/StringUtils/Tests.antt =====
-- Runs of SplitToViews, and the theorem at a concrete string.
use libcold.Base.{◌≡◌, refl, [], ◌∷◌, true, false, Every, bytes_of}
use libcold.StringUtils.{split_to_views, split_loop, find_delim}
use libcold.StringUtils.Split.{split_to_views_correct, join, nonempty, IsClean}

split_path :
    split_to_views (bytes_of "/a//bc/") (bytes_of "/") true ≡ bytes_of "a" ∷ bytes_of "bc" ∷ []
unfolding split_to_views split_loop find_delim
split_path = refl

split_path_with_empty :
    split_to_views (bytes_of "/a//b") (bytes_of "/") false
    ≡ [] ∷ bytes_of "a" ∷ [] ∷ bytes_of "b" ∷ []
unfolding split_to_views split_loop find_delim
split_path_with_empty = refl

split_to_views_correct_example :
    (join 47 (split_to_views (47 ∷ 97 ∷ []) (47 ∷ []) false) ≡ 47 ∷ 97 ∷ [])
    × (Every (IsClean 47) (split_to_views (47 ∷ 97 ∷ []) (47 ∷ []) false))
    × (split_to_views (47 ∷ 97 ∷ []) (47 ∷ []) true
        ≡ nonempty (split_to_views (47 ∷ 97 ∷ []) (47 ∷ []) false))
split_to_views_correct_example = split_to_views_correct 47 (47 ∷ 97 ∷ [])
