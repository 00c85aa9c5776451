-- ===== src/SeoEngine/Redirects/Tests.antt =====
-- Tests of the redirects that the editors keep.
use majestan_backend.Prelude.{Bool, true, some, List, [], ◌∷◌, ◌≡◌, refl}
use majestan_backend.Prelude.Text.{Text, codes}
use majestan_backend.Http.{ok, fail}
use majestan_backend.SeoEngine.{path_value}
use majestan_backend.SeoEngine.Redirects.{RedirectTable, RedirectBody, save_redirect, next_path}
use majestan_backend.SeoEngine.Redirects.Chains.{follow, EndsAt}
use majestan_backend.SeoEngine.Redirects.Ends.{
  RedirectRequest, write, handle_redirects, IsFlowing, handle_redirects_end,
}

abbrev no_redirects : RedirectTable
no_redirects = record { rows = []; next_id = 1 }

abbrev from_to : Text → Text → RedirectBody
from_to source dest = record {
  source_path = some source;
  destination_path = some dest;
  reason = [];
  is_active = true;
}

abbrev everything : Text → Bool
everything path = true

path_trimmed : path_value (some (codes "/old-flats//")) ≡ ok (codes "/old-flats")
unfolding path_value
path_trimmed = refl

path_reserved : path_value (some (codes "/api/x")) ≡ fail 400 "Reserved or invalid path"
unfolding path_value
path_reserved = refl

abbrev requests : List RedirectRequest
requests =
    write (from_to (codes "/a") (codes "/b")) ∷ write (from_to (codes "/b") (codes "/c")) ∷ []

back_refused :
    (save_redirect everything
      (from_to (codes "/c") (codes "/a"))
      (handle_redirects everything requests no_redirects)).0
    ≡ fail 400 "This redirect creates a loop"
unfolding save_redirect handle_redirects
back_refused = refl

two_hops :
    follow 3 (codes "/a") (handle_redirects everything requests no_redirects).rows
    ≡ some (codes "/c")
unfolding handle_redirects follow
two_hops = refl

no_redirects-IsFlowing : IsFlowing no_redirects.rows
unfolding follow next_path
no_redirects-IsFlowing = record { distinct = tt; ends = λ path. (1, path, refl) }

handle_redirects_end_example :
    EndsAt (codes "/a") (handle_redirects everything requests no_redirects).rows
handle_redirects_end_example =
    handle_redirects_end everything requests no_redirects no_redirects-IsFlowing (codes "/a")
