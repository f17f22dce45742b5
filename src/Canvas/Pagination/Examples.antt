-- ===== src/Canvas/Pagination/Examples.antt =====
-- A collection of two pages, of which the second links back to itself in one of the clients.
use Prim.Native.Char.{code}
use paquitobot_rag.Text.{
  strip_of, lstrip_of, rstrip_of, split_on, has_any, before_first, after_first,
}
use paquitobot_rag.Rag.{put}
use paquitobot_rag.Canvas.Pagination.Links.{parse_link_header}
use paquitobot_rag.Prelude.{
  ℕ, zero, suc, ◌<◌, ◌≤◌, ◌≡◌, ◌≢◌, refl, String, Bool, true, false, Option, none, some, List, [],
  ◌∷◌, length, arith, str_eq, str_eq_iff, ◌==◌,
}
use paquitobot_rag.Exec.{Result}
use paquitobot_rag.Value.{Value, int, list, nil, cons, member}
use paquitobot_rag.Value.Int.{pos}
use paquitobot_rag.Canvas.Pagination.{
  Page, Urllib, Client, visited_key, candidate_url, received, read_page, after, loop, paginate,
}
use paquitobot_rag.Canvas.Pagination.Pages.{
  is_first, asked_key, asked_url, link_from, pages_from, paginate_whole,
}
use paquitobot_rag.Canvas.Pagination.Requests.{IsDistinct, keys_of, paginate-IsDistinct}

abbrev urllib : Urllib
urllib = record {
  urlparse = λ url. record { scheme = ""; netloc = ""; path = url; query = "" };
  parse_qs = λ _. [];
  urlencode = λ _. "";
  sorted = λ params. params;
}

abbrev page_of : ℕ → Option String → Page
page_of item next = record {
  status_code = 200;
  body = some (list (cons (int (pos item)) nil));
  next = next;
}

abbrev answers : Option String → ℕ → String → Bool → Result Page
answers last zero url first = Result.ok (page_of 1 (some "https://canvas/next"))
answers last (suc n) url first = Result.ok (page_of 2 last)

abbrev client_of : Option String → Client
client_of last = record {
  urllib = urllib;
  base_url = "https://canvas";
  merged_query = "per_page=100";
  get = answers last;
}

abbrev urls : ℕ → String
urls zero = "/courses"
urls (suc k) = "https://canvas/next"

abbrev pages : ℕ → List Value
pages zero = int (pos 1) ∷ []
pages (suc k) = int (pos 2) ∷ []

-- The page that links to itself ends the loop, and so does the last page.
paginate_runs :
    ((paginate (client_of none) "/courses").items ≡ int (pos 1) ∷ int (pos 2) ∷ [])
    × ((paginate (client_of (some "https://canvas/next")) "/courses").items
        ≡ int (pos 1) ∷ int (pos 2) ∷ [])
    × (length (paginate (client_of (some "https://canvas/next")) "/courses").requested ≡ 2)
unfolding paginate loop after received read_page member visited_key candidate_url
paginate_runs = (refl, refl, refl)

serves :
    (k : ℕ)
    → k < 2
    → received ((client_of none).get k (urls k) (is_first k))
      ≡ Result.ok (pages k, link_from (client_of none) 2 urls pages k)
unfolding received read_page
serves zero h = refl
serves (suc zero) h = refl
serves (suc (suc k)) h = absurd (omega arith)

different : (s t : String) → str_eq s t ≡ false → s ≢ t
different s t apart e = let same : str_eq s t ≡ true = (str_eq_iff s t).1 e in cc

distinct_keys :
    asked_key (client_of none) 2 urls pages 0 ≢ asked_key (client_of none) 2 urls pages 1
unfolding visited_key candidate_url
distinct_keys =
    different (asked_key (client_of none) 2 urls pages 0)
      (asked_key (client_of none) 2 urls pages 1) refl

moved : urls 1 ≢ asked_url (client_of none) 2 urls pages 0
unfolding candidate_url
moved = different (urls 1) (asked_url (client_of none) 2 urls pages 0) refl

distinct :
    (i j : ℕ)
    → i < j
    → j < 2
    → asked_key (client_of none) 2 urls pages i ≢ asked_key (client_of none) 2 urls pages j
distinct zero (suc zero) h l e = distinct_keys e
distinct zero zero h l e = absurd (omega arith)
distinct (suc i) zero h l e = absurd (omega arith)
distinct (suc i) (suc zero) h l e = absurd (omega arith)
distinct i (suc (suc j)) h l e = absurd (omega arith)

moves : (k : ℕ) → suc k < 2 → urls (suc k) ≢ asked_url (client_of none) 2 urls pages k
moves zero h e = moved e
moves (suc k) h e = absurd (omega arith)

two_pages : (◌<◌ 0 2) × (◌≤◌ 2 1000)
two_pages = (omega arith, omega arith)

paginate_whole_example :
    ((paginate (client_of none) "/courses").items ≡ pages_from pages 2 0)
    × ((paginate (client_of none) "/courses").ending ≡ none)
paginate_whole_example =
    paginate_whole (client_of none) 2 urls pages serves distinct moves two_pages.0 two_pages.1

paginate-IsDistinct_example :
    IsDistinct (keys_of (client_of none) (paginate (client_of none) "/courses").requested)
    × (length (paginate (client_of none) "/courses").requested ≤ 1000)
paginate-IsDistinct_example = paginate-IsDistinct (client_of none) "/courses"

-- The header of a page of courses
two_links :
    parse_link_header
      (λ c. code c == 32)
      (some
        "<https://c.test/courses?page=2>; rel=\"next\", <https://c.test/courses?page=9>; rel=\"last\"")
    ≡ ("next", "https://c.test/courses?page=2") ∷ ("last", "https://c.test/courses?page=9") ∷ []
unfolding parse_link_header strip_of lstrip_of rstrip_of split_on has_any before_first after_first
    put
two_links = refl
