-- ===== src/Canvas/Pagination/Pages.antt =====
-- A collection that Canvas serves over several pages is read whole and in order.
use paquitobot_rag.Prelude.{
  ℕ, zero, suc, ◌+◌, ◌≤◌, ◌<◌, ◌≡◌, ◌≢◌, refl, ap, String, Bool, true, false, Option, none, some,
  List, [], ◌∷◌, ◌++◌, ◌==◌, arith, str_eq, str_eq_iff, if◌then◌else◌,
}
use paquitobot_rag.Exec.{Result}
use paquitobot_rag.Value.{Value, member}
use paquitobot_rag.Canvas.Pagination.{
  Client, visited_key, candidate_url, Output, received, after, loop, paginate,
}

abbrev pub is_first : ℕ → Bool
is_first zero = true
is_first (suc k) = false

-- The pages from the `k`th on, one after the other.
abbrev pub pages_from : (ℕ → List Value) → ℕ → ℕ → List Value
pages_from pages zero k = []
pages_from pages (suc left) k = pages k ++ pages_from pages left (suc k)

module _ (client : Client) (count : ℕ) (url : ℕ → String) (pages : ℕ → List Value) where
  -- The URL and the key of the `k`th request.
  abbrev pub asked_url : ℕ → String
  asked_url k = candidate_url client (is_first k) (url k)

  abbrev pub asked_key : ℕ → String
  asked_key k = visited_key client.urllib (asked_url k)

  -- Every page but the last names the next one.
  abbrev pub link_from : ℕ → Option String
  link_from k = if suc k == count then none else some (url (suc k))

  module _
      (serves : (k : ℕ)
        → k < count
        → received (client.get k (url k) (is_first k)) ≡ Result.ok (pages k, link_from k))
      (distinct : (i j : ℕ) → i < j → j < count → asked_key i ≢ asked_key j)
      (moves : (k : ℕ) → suc k < count → url (suc k) ≢ asked_url k) where
    abbrev Fresh : ℕ → List String → Type 0
    Fresh k visited = (j : ℕ) → k ≤ j → j < count → member (asked_key j) visited ≡ false

    Fresh-suc :
        (k : ℕ) (visited : List String) → Fresh k visited → Fresh (suc k) (asked_key k ∷ visited)
    unfolding member
    Fresh-suc k visited h j above below = ground (
      arith,
      str_eq_iff (asked_key k) (asked_key j),
      distinct k j (omega arith) below,
      h j (omega arith) below,
    )

    abbrev Reads : ℕ → ℕ → Output → Type 0
    Reads left k output = (output.items ≡ pages_from pages left k) × (output.ending ≡ none)

    loop-Reads :
        (bound left k : ℕ) (visited : List String)
        → suc left + k ≡ count
        → left < bound
        → Fresh k visited
        → Reads (suc left) k (loop client bound k (is_first k) (url k) visited)
    unfolding loop after
    loop-Reads zero left k visited e enough h = absurd (omega arith)
    loop-Reads (suc bound) zero k visited e enough h =
        let last : (suc k == count) ≡ true = ground arith in
        rw (h k (omega arith) (omega arith), serves k (omega arith), last) (refl, refl)
    loop-Reads (suc bound) (suc left) k visited e enough h =
        let more : (suc k == count) ≡ false = ground arith in
        let onward : str_eq (url (suc k)) (asked_url k) ≡ false =
          ground (arith, str_eq_iff (url (suc k)) (asked_url k), moves k (omega arith)) in
        let (items, ending) =
          loop-Reads bound left (suc k) (asked_key k ∷ visited) (omega arith) (omega arith)
            (Fresh-suc k visited h) in
        rw (h k (omega arith) (omega arith), serves k (omega arith), more, onward)
          (ap (λ xs. pages k ++ xs) items, ending)

    -- Where Canvas serves between one and a thousand pages, each but the last with a link to the
    -- next, the requests' keys differ, and no link repeats the URL that was just asked for,
    -- `paginate` yields the items of all pages in order and ends without an exception.
    pub paginate_whole : 0 < count → count ≤ 1000 → Reads count 0 (paginate client (url 0))
    unfolding paginate member
    paginate_whole some_page few = go count refl
      where
        go : (c : ℕ) → c ≡ count → Reads c 0 (paginate client (url 0))
        go zero e = absurd (omega arith)
        go (suc left) e = loop-Reads 1000 left 0 [] (omega arith) (omega arith) (λ j _ _. refl)
