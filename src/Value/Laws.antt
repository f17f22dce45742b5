-- ===== src/Value/Laws.antt =====
-- The laws of dicts that the proofs about rows use.
use paquitobot_rag.Prelude.{
  String, ◌≡◌, refl, Bool, false, arith, str_eq, str_eq_iff, if◌then◌else◌,
}
use paquitobot_rag.Value.{Value, Fields, null, end, field, get, has_key, pop, put, keep}

pub get-put :
    (k j : String) (v : Value) (d : Fields)
    → get j (put k v d) ≡ (if str_eq k j then v else get j d)
unfolding get put
get-put k j v end = refl
get-put k j v (field i w d) =
    ground (arith, str_eq_iff i k, str_eq_iff i j, str_eq_iff k j, get-put k j v d)

pub get-pop : (k j : String) (d : Fields) → get j (pop k d) ≡ (if str_eq k j then null else get j d)
unfolding get pop
get-pop k j end = ground arith
get-pop k j (field i w d) =
    ground (arith, str_eq_iff i k, str_eq_iff i j, str_eq_iff k j, get-pop k j d)

-- Writing a key twice leaves the last value.
pub put-put : (k : String) (v w : Value) (d : Fields) → put k w (put k v d) ≡ put k w d
unfolding put
put-put k v w end = ground (arith, str_eq_iff k k)
put-put k v w (field i u d) = ground (arith, str_eq_iff i k, put-put k v w d)

-- What a filter lets through has passed its test.
pub has_key-keep :
    (p : String → Value → Bool) (k : String) (d : Fields)
    → ((v : Value) → p k v ≡ false)
    → has_key k (keep p d) ≡ false
unfolding has_key keep
has_key-keep p k end h = refl
has_key-keep p k (field i v d) h = ground (arith, str_eq_iff i k, h v, has_key-keep p k d h)
