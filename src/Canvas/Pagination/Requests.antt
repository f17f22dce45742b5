-- ===== src/Canvas/Pagination/Requests.antt =====
-- The requests of `paginate`: none is made twice, and there are at most a thousand.
use paquitobot_rag.Prelude.{
  ℕ, zero, suc, ◌≤◌, ◌≡◌, String, Bool, true, false, Option, none, some, List, [], ◌∷◌, length,
  arith, str_eq, str_eq_iff, Bool-cases, inl, inr, All, map, refl,
}
use paquitobot_rag.Exec.{Result}
use paquitobot_rag.Value.{Value, member}
use paquitobot_rag.Canvas.Pagination.{
  Client, visited_key, candidate_url, Output, asking, received, after, loop, paginate,
}

abbrev pub IsDistinct : List String → Type 0
IsDistinct [] = Unit
IsDistinct (k ∷ ks) = (member k ks ≡ false) × IsDistinct ks

-- None of the keys was visited.
abbrev IsNew : List String → List String → Type 0
IsNew visited = All (λ key. member key visited ≡ false)

-- No key was visited after one more was: it is not among them, and none was visited before.
IsNew-cons :
    (key : String) (visited keys : List String)
    → IsNew (key ∷ visited) keys
    → (member key keys ≡ false) × IsNew visited keys
unfolding member
IsNew-cons key visited [] h = (refl, tt)
IsNew-cons key visited (k ∷ keys) (here, rest) =
    let (apart, others) = IsNew-cons key visited keys rest in
    (
      ground (arith, here, apart, str_eq_iff key k, str_eq_iff k key),
      (ground (arith, here), others),
    )

module _ (client : Client) where
  -- The keys of the URLs that were asked for.
  abbrev pub keys_of : List String → List String
  keys_of = map (visited_key client.urllib)

  -- What a loop with so many steps left asks for, after some keys were visited.
  abbrev IsBounded : ℕ → List String → Output → Type 0
  IsBounded left visited output =
      IsDistinct (keys_of output.requested)
      × IsNew visited (keys_of output.requested)
      × (length output.requested ≤ left)

  after-IsBounded :
      (left : ℕ) (candidate : String) (visited : List String) (go : String → Output)
      (answer : Result (List Value × Option String))
      → ((next : String) → IsBounded left visited (go next))
      → IsBounded left visited (after candidate go answer)
  unfolding after
  after-IsBounded left candidate visited go (Result.err e) k = (tt, tt, omega arith)
  after-IsBounded left candidate visited go (Result.ok (items, none)) k = (tt, tt, omega arith)
  after-IsBounded left candidate visited go (Result.ok (items, some next)) k =
      elim (Bool-cases (str_eq next candidate)) [
        | inl same ↦ rw same (tt, tt, omega arith)
        | inr other ↦ rw other (k next)
      ]

  asking-IsBounded :
      (left : ℕ) (candidate : String) (visited : List String) (rest : Output)
      → let key = visited_key client.urllib candidate in
        member key visited ≡ false
        → IsBounded left (key ∷ visited) rest
        → IsBounded (suc left) visited (asking candidate rest)
  asking-IsBounded left candidate visited rest new (distinct, fresh, bound) =
      let key = visited_key client.urllib candidate in
      let (apart, before) = IsNew-cons key visited (keys_of rest.requested) fresh in
      ((apart, distinct), (new, before), omega arith)

  loop-IsBounded :
      (left n : ℕ) (first : Bool) (url : String) (visited : List String)
      → IsBounded left visited (loop client left n first url visited)
  unfolding loop
  loop-IsBounded zero n first url visited = (tt, tt, omega arith)
  loop-IsBounded (suc left) n first url visited =
      let candidate = candidate_url client first url in
      let key = visited_key client.urllib candidate in
      let go : String → Output = λ next. loop client left (suc n) false next (key ∷ visited) in
      elim (Bool-cases (member key visited)) [
        | inl seen ↦ rw seen (tt, tt, omega arith)
        | inr new ↦ rw new (
            asking-IsBounded left candidate visited
              (after candidate go (received (client.get n url first))) new
              (after-IsBounded left candidate (key ∷ visited) go (received (client.get n url first))
                (λ next. loop-IsBounded left (suc n) false next (key ∷ visited))))
      ]

  -- Whatever Canvas answers, `paginate` calls `client.get` at most a thousand times, and no two of the
  -- calls are for URLs of one key.
  pub paginate-IsDistinct :
      (path : String)
      → IsDistinct (keys_of (paginate client path).requested)
        × (length (paginate client path).requested ≤ 1000)
  unfolding paginate
  paginate-IsDistinct path =
      let (distinct, _, bound) = loop-IsBounded 1000 0 true path [] in (distinct, bound)
