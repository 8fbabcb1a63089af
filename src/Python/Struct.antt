-- ===== src/Python/Struct.antt =====
-- `struct.pack` and `struct.unpack` with the formats of unsigned big-endian integers.
use aiobt.Prelude.{
  refl, lt→ltb, replicate, ◌++◌, ap, ℕ, ◌+◌, ◌*◌, ◌/◌, ◌%◌, ◌<◌, [], ◌∷◌, ltb, if◌then◌else◌, take,
  drop, All, ◌≡◌, arith,
}
use aiobt.Python.Bytes.{Bytes}
use aiobt.Python.Result.{Result, ok, raised, struct_error, ◌>>=◌, ok-injective}

abbrev pub u32_limit : ℕ
u32_limit = 0x100000000

-- The four bytes of n, the highest first.
abbrev pub u32_bytes : ℕ → Bytes
u32_bytes n = n / 0x1000000 % 256 ∷ n / 0x10000 % 256 ∷ n / 0x100 % 256 ∷ n % 256 ∷ []

-- struct.pack("!I", n)
unfoldable pub pack_u32 : ℕ → Result Bytes
pack_u32 n =
    if ltb n u32_limit then ok (u32_bytes n) else raised (struct_error "argument out of range")

-- struct.unpack("!I", b)
unfoldable pub unpack_u32 : Bytes → Result ℕ
unpack_u32 (a ∷ b ∷ c ∷ d ∷ []) = ok (((a * 256 + b) * 256 + c) * 256 + d)
unpack_u32 _ = raised (struct_error "unpack requires a buffer of 4 bytes")

-- struct.unpack("!II", b)
unfoldable pub unpack_u32_pair : Bytes → Result (ℕ × ℕ)
unfolding unpack_u32
unpack_u32_pair b = do x ← unpack_u32 (take 4 b); y ← unpack_u32 (drop 4 b); ok (x, y)

-- struct.unpack("!III", b)
unfoldable pub unpack_u32_triple : Bytes → Result (ℕ × ℕ × ℕ)
unfolding unpack_u32_pair
unpack_u32_triple b = do
  x ← unpack_u32 (take 4 b)
  (y, z) ← unpack_u32_pair (drop 4 b)
  ok (x, y, z)

-- Values of bytes.
abbrev pub AreBytes : Bytes → Type 0
AreBytes = All (λ c. c < 256)

pub unpack-u32_bytes : (n : ℕ) → n < u32_limit → unpack_u32 (u32_bytes n) ≡ ok n
unfolding unpack_u32
unpack-u32_bytes n h = ground arith

pub u32_bytes-AreBytes : (n : ℕ) → AreBytes (u32_bytes n)
u32_bytes-AreBytes n = omega arith

-- What was unpacked packs to the same bytes.
pub u32_bytes-unpack :
    (b : Bytes) {n : ℕ} → AreBytes b → unpack_u32 b ≡ ok n → (u32_bytes n ≡ b) × (n < u32_limit)
unfolding unpack_u32
u32_bytes-unpack (a ∷ b ∷ c ∷ d ∷ []) {n} h e =
    let value : ((a * 256 + b) * 256 + c) * 256 + d ≡ n = ok-injective e in
    (ground arith, omega arith)
u32_bytes-unpack [] h e = cc
u32_bytes-unpack (a ∷ []) h e = cc
u32_bytes-unpack (a ∷ b ∷ []) h e = cc
u32_bytes-unpack (a ∷ b ∷ c ∷ []) h e = cc
u32_bytes-unpack (a ∷ b ∷ c ∷ d ∷ x ∷ r) h e = cc

-- struct.pack and struct.unpack with "!H".
abbrev pub u16_bytes : ℕ → Bytes
u16_bytes n = n / 0x100 % 256 ∷ n % 256 ∷ []

unfoldable pub pack_u16 : ℕ → Result Bytes
pack_u16 n =
    if ltb n 0x10000 then ok (u16_bytes n) else raised (struct_error "argument out of range")

unfoldable pub unpack_u16 : Bytes → Result ℕ
unpack_u16 (a ∷ b ∷ []) = ok (a * 256 + b)
unpack_u16 _ = raised (struct_error "unpack requires a buffer of 2 bytes")

pub unpack-u16_bytes : (n : ℕ) → n < 0x10000 → unpack_u16 (u16_bytes n) ≡ ok n
unfolding unpack_u16
unpack-u16_bytes n h = ground arith

-- struct.pack and struct.unpack with "!Q": two halves of 32 bits.
abbrev pub u64_bytes : ℕ → Bytes
u64_bytes n = u32_bytes (n / u32_limit) ++ u32_bytes (n % u32_limit)

unfoldable pub pack_u64 : ℕ → Result Bytes
pack_u64 n =
    if ltb (n / u32_limit) u32_limit
    then ok (u64_bytes n)
    else raised (struct_error "argument out of range")

unfoldable pub unpack_u64 : Bytes → Result ℕ
unfolding unpack_u32_pair
unpack_u64 b = do (high, low) ← unpack_u32_pair b; ok (high * u32_limit + low)

pub unpack-u64_bytes : (n : ℕ) → n / u32_limit < u32_limit → unpack_u64 (u64_bytes n) ≡ ok n
unfolding unpack_u64 unpack_u32_pair
unpack-u64_bytes n h = ap ok (omega arith)

-- Non-negative arguments of the signed formats "!i" and "!q".
unfoldable pub pack_i32 : ℕ → Result Bytes
pack_i32 n =
    if ltb n 0x80000000 then ok (u32_bytes n) else raised (struct_error "argument out of range")

unfoldable pub pack_i64 : ℕ → Result Bytes
pack_i64 n =
    if ltb (n / u32_limit) 0x80000000
    then ok (u64_bytes n)
    else raised (struct_error "argument out of range")

-- "20s": cut to 20 bytes, or filled up with zeros.
abbrev pub s20 : Bytes → Bytes
s20 b = take 20 (b ++ replicate 20 0)

-- The number with the bytes of n.
pub u32_bytes-value :
    (n : ℕ)
    → n < u32_limit
    → ((n / 0x1000000 % 256 * 256 + n / 0x10000 % 256) * 256 + n / 0x100 % 256) * 256 + n % 256 ≡ n
u32_bytes-value n h = omega arith

pub pack_u32-lt : (n : ℕ) → n < u32_limit → pack_u32 n ≡ ok (u32_bytes n)
unfolding pack_u32
pack_u32-lt n h = rw (lt→ltb n u32_limit h) refl

pub pack_u16-lt : (n : ℕ) → n < 0x10000 → pack_u16 n ≡ ok (u16_bytes n)
unfolding pack_u16
pack_u16-lt n h = rw (lt→ltb n 0x10000 h) refl
