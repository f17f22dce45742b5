-- ===== src/Lock/Key.antt =====
-- `lock_key_for` of app/sync/lock.py: the 32-bit FNV-1a hash of the key's bytes, read as signed.
use Prim.Native.Nat.{bit_xor, ◌%◌, ◌^◌}
use paquitobot_rag.Prelude.{ℕ, ◌-◌, ◌*◌, ◌<◌, ◌≡◌, refl, List, [], ◌∷◌, arith, leb, if◌then◌else◌}
use paquitobot_rag.Value.Int.{ℤ, pos, negsuc}

hash_bytes : ℕ → List ℕ → ℕ
hash_bytes hashed [] = hashed
hash_bytes hashed (byte ∷ bytes) = hash_bytes ((bit_xor hashed byte * 0x01000193) % 2 ^ 32) bytes

-- `hashed - 0x100000000 if hashed >= 0x80000000 else hashed`
signed : ℕ → ℤ
signed hashed = if leb 0x80000000 hashed then negsuc (0x100000000 - hashed - 1) else pos hashed

pub lock_key_for : List ℕ → ℤ
unfolding hash_bytes signed
lock_key_for bytes = signed (hash_bytes 0x811C9DC5 bytes)

hash_bytes-lt : (hashed : ℕ) (bytes : List ℕ) → hashed < 2 ^ 32 → hash_bytes hashed bytes < 2 ^ 32
unfolding hash_bytes
hash_bytes-lt hashed [] h = h
hash_bytes-lt hashed (byte ∷ bytes) h =
    hash_bytes-lt ((bit_xor hashed byte * 0x01000193) % 2 ^ 32) bytes (omega arith)

abbrev pub FitsInt32 : ℤ → Type 0
FitsInt32 (pos n) = n < 2 ^ 31
FitsInt32 (negsuc n) = n < 2 ^ 31

signed-FitsInt32 : (hashed : ℕ) → hashed < 2 ^ 32 → FitsInt32 (signed hashed)
unfolding signed
signed-FitsInt32 hashed h = ground arith

-- The diagnostic key of any bytes is a signed 32-bit number.
pub lock_key_for-FitsInt32 : (bytes : List ℕ) → FitsInt32 (lock_key_for bytes)
unfolding lock_key_for
lock_key_for-FitsInt32 bytes =
    signed-FitsInt32 (hash_bytes 0x811C9DC5 bytes) (hash_bytes-lt 0x811C9DC5 bytes (omega arith))

-- The offset basis itself is negative as a signed number: the empty text has key -2128831035.
lock_key_for_empty : lock_key_for [] ≡ negsuc 2128831034
unfolding lock_key_for
lock_key_for_empty = refl
