-- ===== src/Canvas/Pagination.antt =====
-- app/canvas/pagination.py: the generator `paginate`, as the list of what it yields, the exception
-- that it ends with, if any, and the candidate URL of each of its calls of `client.get`, first first. The parsing of URLs is
-- urllib's, and the `next` link of a response httpx's: both are parameters.
pub mod Pages
pub mod Links
pub mod Requests
pub mod Examples
use Prim.Native.String.{begins, ◌++◌ as append}
use paquitobot_rag.Prelude.{
  ℕ, zero, suc, String, Bool, true, false, Option, none, some, List, [], ◌∷◌, ◌++◌, leb, ◌==◌, ◌||◌,
  not, str_eq, if◌then◌else◌,
}
use paquitobot_rag.Exec.{Exn, Result}
use paquitobot_rag.Value.{Value, Items, list, nil, cons, member}

pub record Page : Type 0 where
  pub status_code : ℕ
  -- `response.json()`, or none where it raises a `ValueError`
  pub body : Option Value
  -- `_extract_next_url(response)`
  pub next : Option String

pub record ParsedUrl : Type 0 where
  pub scheme : String
  pub netloc : String
  pub path : String
  pub query : String

pub record Urllib : Type 0 where
  pub urlparse : String → ParsedUrl
  -- `parse_qs(query, keep_blank_values=True)`, each key once with its values
  pub parse_qs : String → List (String × List String)
  pub urlencode : List (String × String) → String
  -- `sorted` of the keys
  pub sorted : List (String × List String) → List (String × List String)

pub record Client : Type 0 where
  pub urllib : Urllib
  -- `client._base_url`, and `merged` as a query string
  pub base_url : String
  pub merged_query : String
  -- `client.get`: the number of the request, the URL, and whether `merged` is sent along
  pub get : ℕ → String → Bool → Result Page

-- `params.get("page") == ["1"]`
abbrev is_first_page : List String → Bool
is_first_page (v ∷ []) = str_eq v "1"
is_first_page _ = false

-- `params.pop("page", None)` where the page is the first
drop_first_page : List (String × List String) → List (String × List String)
drop_first_page [] = []
drop_first_page ((k, vs) ∷ params) =
    let rest = drop_first_page params in
    if str_eq k "page" then (if is_first_page vs then rest else (k, vs) ∷ rest) else (k, vs) ∷ rest

pair_with : String → List String → List (String × String) → List (String × String)
pair_with k [] rest = rest
pair_with k (v ∷ vs) rest = (k, v) ∷ pair_with k vs rest

pairs : List (String × List String) → List (String × String)
unfolding pair_with
pairs [] = []
pairs ((k, vs) ∷ params) = pair_with k vs (pairs params)

abbrev with_query : String → String → String
with_query base query = if str_eq query "" then base else append base (append "?" query)

-- `_visited_key`
unfoldable pub visited_key : Urllib → String → String
unfolding drop_first_page pairs
visited_key u url =
    let p = u.urlparse url in
    with_query (append p.scheme (append "://" (append p.netloc p.path)))
      (u.urlencode (pairs (u.sorted (drop_first_page (u.parse_qs p.query)))))

-- `url.startswith(prefix)`
abbrev starts_with : String → String → Bool
starts_with prefix url = begins url prefix 1 0 == 1

-- `_resolve_for_base`
abbrev is_absolute : String → Bool
is_absolute url = starts_with "http://" url || starts_with "https://" url

resolve_for_base : String → String → String
resolve_for_base base url =
    if is_absolute url
    then url
    else append base (if starts_with "/" url then url else append "/" url)

-- `_candidate_request_url`: only the first request sends the merged parameters.
unfoldable pub candidate_url : Client → Bool → String → String
unfolding resolve_for_base
candidate_url client true url =
    append (resolve_for_base client.base_url url) (append "?" client.merged_query)
candidate_url client false url = resolve_for_base client.base_url url

pub record Output : Type 0 where
  pub items : List Value
  pub ending : Option Exn
  -- a URL for each call of `client.get`
  pub requested : List String

abbrev pub to_list : Items → List Value
to_list nil = []
to_list (cons v rest) = v ∷ to_list rest

abbrev pub stop : Option Exn → Output
stop ending = record { items = []; ending = ending; requested = [] }

-- `client.get` is called, for the candidate URL, and the rest follows.
abbrev pub asking : String → Output → Output
asking candidate output = record output { requested = candidate ∷ output.requested }

-- What a page's body is: its items, or the exception.
unfoldable pub read_page : Page → Result (List Value)
read_page page =
    if leb 400 page.status_code
    then Result.err (Exn.request_error (some page.status_code))
    else (elim page.body [
      | none ↦ Result.err (Exn.http_error true)
      | some (list items) ↦ Result.ok (to_list items)
      | some _ ↦ Result.err Exn.pagination_error
    ])

abbrev pub yielding : List Value → Output → Output
yielding items output = record output { items = items ++ output.items }

unfoldable pub received : Result Page → Result (List Value × Option String)
unfolding read_page
received (Result.err e) = Result.err e
received (Result.ok page) = elim (read_page page) [
  | Result.ok items ↦ Result.ok (items, page.next)
  | Result.err e ↦ Result.err e
]

-- What a response leads to: `go` is the rest of the loop.
unfoldable pub after : String → (String → Output) → Result (List Value × Option String) → Output
after candidate go (Result.err e) = stop (some e)
after candidate go (Result.ok (items, none)) = yielding items (stop none)
after candidate go (Result.ok (items, some next)) =
    yielding items (if str_eq next candidate then stop none else go next)

module _ (client : Client) where
  -- The `while` loop: `left` is what `iterations` has left below its bound, `n` the number of the
  -- request, and `first` says that `next_url is path`.
  unfoldable pub loop : ℕ → ℕ → Bool → String → List String → Output
  unfolding received after visited_key candidate_url
  loop zero n first url visited = stop (some Exn.runtime_error)
  loop (suc left) n first url visited =
      let candidate = candidate_url client first url in
      let key = visited_key client.urllib candidate in
      let go : String → Output = λ next. loop left (suc n) false next (key ∷ visited) in
      if member key visited
      then stop none
      else asking candidate (after candidate go (received (client.get n url first)))

  -- `paginate`, with the positive page size in `merged`
  unfoldable pub paginate : String → Output
  unfolding loop
  paginate path = loop 1000 0 true path []
