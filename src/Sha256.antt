-- ===== src/Sha256.antt =====
-- drivers/sha256.c: the hash, from bytes to bytes.
pub mod Reference
mod Buffer
mod Stream
mod Padding
pub mod Digest
mod Words
mod Schedule
mod Tests
use minerva_os.Base.{
  ℕ, zero, suc, ◌+◌, ◌-◌, ◌*◌, ◌/◌, ◌%◌, ◌^◌, List, [], ◌∷◌, if◌then◌else◌, ◌==◌, ltb, get_or, set,
  replicate, bit_and, bit_or, bit_xor, ◌++◌,
}
use minerva_os.Base.Bits.{shr}

-- `sha256_ctx_t`
pub record Context : Type 0 where
  pub state : List ℕ
  pub bit_len : ℕ
  pub buffer : List ℕ
  pub buffer_len : ℕ

-- `k`
abbrev pub round_constants : List ℕ
round_constants =
    0x428A2F98 ∷ 0x71374491 ∷ 0xB5C0FBCF ∷ 0xE9B5DBA5 ∷ 0x3956C25B ∷ 0x59F111F1 ∷ 0x923F82A4
    ∷ 0xAB1C5ED5 ∷ 0xD807AA98 ∷ 0x12835B01 ∷ 0x243185BE ∷ 0x550C7DC3 ∷ 0x72BE5D74 ∷ 0x80DEB1FE
    ∷ 0x9BDC06A7 ∷ 0xC19BF174 ∷ 0xE49B69C1 ∷ 0xEFBE4786 ∷ 0x0FC19DC6 ∷ 0x240CA1CC ∷ 0x2DE92C6F
    ∷ 0x4A7484AA ∷ 0x5CB0A9DC ∷ 0x76F988DA ∷ 0x983E5152 ∷ 0xA831C66D ∷ 0xB00327C8 ∷ 0xBF597FC7
    ∷ 0xC6E00BF3 ∷ 0xD5A79147 ∷ 0x06CA6351 ∷ 0x14292967 ∷ 0x27B70A85 ∷ 0x2E1B2138 ∷ 0x4D2C6DFC
    ∷ 0x53380D13 ∷ 0x650A7354 ∷ 0x766A0ABB ∷ 0x81C2C92E ∷ 0x92722C85 ∷ 0xA2BFE8A1 ∷ 0xA81A664B
    ∷ 0xC24B8B70 ∷ 0xC76C51A3 ∷ 0xD192E819 ∷ 0xD6990624 ∷ 0xF40E3585 ∷ 0x106AA070 ∷ 0x19A4C116
    ∷ 0x1E376C08 ∷ 0x2748774C ∷ 0x34B0BCB5 ∷ 0x391C0CB3 ∷ 0x4ED8AA4A ∷ 0x5B9CCA4F ∷ 0x682E6FF3
    ∷ 0x748F82EE ∷ 0x78A5636F ∷ 0x84C87814 ∷ 0x8CC70208 ∷ 0x90BEFFFA ∷ 0xA4506CEB ∷ 0xBEF9A3F7
    ∷ 0xC67178F2 ∷ []

-- `rotr32`
unfoldable pub rotr32 : ℕ → ℕ → ℕ
rotr32 value shift = bit_or (shr value shift) (2 ^ (32 - shift) * value % 2 ^ 32)

-- `load_be32(src + at)`
unfoldable pub load_be32 : List ℕ → ℕ → ℕ
load_be32 src at =
    bit_or
      (bit_or (bit_or (2 ^ 24 * get_or src at 0 % 2 ^ 32) (2 ^ 16 * get_or src (at + 1) 0 % 2 ^ 32))
        (2 ^ 8 * get_or src (at + 2) 0 % 2 ^ 32))
      (get_or src (at + 3) 0)

-- `store_be32`: the four bytes that it writes.
unfoldable pub store_be32 : ℕ → List ℕ
store_be32 value =
    (shr value 24 % 2 ^ 8) ∷ (shr value 16 % 2 ^ 8) ∷ (shr value 8 % 2 ^ 8) ∷ (value % 2 ^ 8) ∷ []

-- `store_be64(dst + at, value)`, the bytes below the first argument still to write.
unfoldable pub store_be64 : ℕ → ℕ → ℕ → List ℕ → List ℕ
store_be64 zero at value dst = dst
store_be64 (suc i) at value dst = store_be64 i at (value / 2 ^ 8) (set dst (at + i) (value % 2 ^ 8))

-- `sha256_init`, which leaves `buffer` as it finds it: the local of `sha256_hash`, not initialised.
unfoldable pub sha256_init : List ℕ → Context
sha256_init buffer = record {
  state =
      0x6A09E667 ∷ 0xBB67AE85 ∷ 0x3C6EF372 ∷ 0xA54FF53A ∷ 0x510E527F ∷ 0x9B05688C ∷ 0x1F83D9AB
      ∷ 0x5BE0CD19 ∷ [];
  bit_len = 0;
  buffer = buffer;
  buffer_len = 0;
}

-- The first sixteen words of `w`, from the index `i` on.
unfoldable pub load_loop : ℕ → ℕ → List ℕ → List ℕ → List ℕ
load_loop zero i block w = w
load_loop (suc left) i block w = load_loop left (i + 1) block (set w i (load_be32 block (i * 4)))

-- The other words of `w`.
unfoldable pub extend_loop : ℕ → ℕ → List ℕ → List ℕ
extend_loop zero i w = w
extend_loop (suc left) i w =
    let w15 = get_or w (i - 15) 0 in
    let w2 = get_or w (i - 2) 0 in
    let s0 = bit_xor (bit_xor (rotr32 w15 7) (rotr32 w15 18)) (shr w15 3) in
    let s1 = bit_xor (bit_xor (rotr32 w2 17) (rotr32 w2 19)) (shr w2 10) in
    extend_loop left (i + 1)
      (set w i ((get_or w (i - 16) 0 + s0 + get_or w (i - 7) 0 + s1) % 2 ^ 32))

-- `w`, which C leaves uninitialised before the two loops write all of it.
unfoldable pub schedule : List ℕ → List ℕ
schedule block = extend_loop 48 16 (load_loop 16 0 block (replicate 64 0))

-- The variables `a` to `h`.
pub record Work : Type 0 where
  pub a : ℕ
  pub b : ℕ
  pub c : ℕ
  pub d : ℕ
  pub e : ℕ
  pub f : ℕ
  pub g : ℕ
  pub h : ℕ

-- One of the 64 rounds, with `k[i]` and `w[i]`.
unfoldable pub round : ℕ → ℕ → Work → Work
round ki wi v =
    let s1 = bit_xor (bit_xor (rotr32 v.e 6) (rotr32 v.e 11)) (rotr32 v.e 25) in
    let ch = bit_xor (bit_and v.e v.f) (bit_and (2 ^ 32 - 1 - v.e) v.g) in
    let temp1 = (v.h + s1 + ch + ki + wi) % 2 ^ 32 in
    let s0 = bit_xor (bit_xor (rotr32 v.a 2) (rotr32 v.a 13)) (rotr32 v.a 22) in
    let maj = bit_xor (bit_xor (bit_and v.a v.b) (bit_and v.a v.c)) (bit_and v.b v.c) in
    let temp2 = (s0 + maj) % 2 ^ 32 in
    record {
      a = (temp1 + temp2) % 2 ^ 32;
      b = v.a;
      c = v.b;
      d = v.c;
      e = (v.d + temp1) % 2 ^ 32;
      f = v.e;
      g = v.f;
      h = v.g;
    }

unfoldable pub round_loop : List ℕ → List ℕ → Work → Work
round_loop [] w v = v
round_loop (ki ∷ k) [] v = v
round_loop (ki ∷ k) (wi ∷ w) v = round_loop k w (round ki wi v)

-- `sha256_transform`, on the eight words of the state.
unfoldable pub transform_state : List ℕ → List ℕ → List ℕ
transform_state state block =
    let s = λ (i : ℕ). get_or state i 0 in
    let start : Work = record {
      a = s 0;
      b = s 1;
      c = s 2;
      d = s 3;
      e = s 4;
      f = s 5;
      g = s 6;
      h = s 7;
    } in
    let v = round_loop round_constants (schedule block) start in
    ((s 0 + v.a) % 2 ^ 32)
    ∷ ((s 1 + v.b) % 2 ^ 32)
    ∷ ((s 2 + v.c) % 2 ^ 32)
    ∷ ((s 3 + v.d) % 2 ^ 32)
    ∷ ((s 4 + v.e) % 2 ^ 32)
    ∷ ((s 5 + v.f) % 2 ^ 32)
    ∷ ((s 6 + v.g) % 2 ^ 32)
    ∷ ((s 7 + v.h) % 2 ^ 32)
    ∷ []

-- `sha256_transform(ctx, ctx->buffer)`
unfoldable pub sha256_transform : Context → Context
sha256_transform ctx = record ctx { state = transform_state ctx.state ctx.buffer }

-- One round of the loop of `sha256_update`.
unfoldable pub update_byte : Context → ℕ → Context
update_byte ctx byte =
    let filled = record ctx {
      buffer = set ctx.buffer ctx.buffer_len byte;
      buffer_len = (ctx.buffer_len + 1) % 2 ^ 8;
      bit_len = (ctx.bit_len + 8) % 2 ^ 64;
    } in
    if filled.buffer_len == 64 then record (sha256_transform filled) { buffer_len = 0 } else filled

-- `sha256_update` of `len` bytes
unfoldable pub sha256_update : Context → List ℕ → Context
sha256_update ctx [] = ctx
sha256_update ctx (byte ∷ bytes) = sha256_update (update_byte ctx byte) bytes

-- `while (i < limit) ctx->buffer[i++] = 0;`, with `limit - i` rounds left.
unfoldable pub zero_loop : ℕ → ℕ → List ℕ → List ℕ
zero_loop zero i buffer = buffer
zero_loop (suc left) i buffer = zero_loop left (i + 1) (set buffer i 0)

-- The end of `sha256_final` from the second loop on, up to the last transform.
unfoldable pub finish : ℕ → Context → Context
finish i ctx =
    sha256_transform
      (record ctx { buffer = store_be64 8 56 ctx.bit_len (zero_loop (56 - i) i ctx.buffer) })

-- The eight words of the state, as bytes.
unfoldable pub output : List ℕ → List ℕ
output [] = []
output (word ∷ words) = store_be32 word ++ output words

-- `sha256_final`: the bytes of `out`.
unfoldable pub sha256_final : Context → List ℕ
sha256_final ctx =
    let i = ctx.buffer_len + 1 in
    let marked = record ctx { buffer = set ctx.buffer ctx.buffer_len 0x80 } in
    let long =
      finish 0 (sha256_transform (record marked { buffer = zero_loop (64 - i) i marked.buffer })) in
    let short = finish i marked in output (if ltb 56 i then long else short).state

-- `sha256_hash`; the first argument is what `ctx.buffer` happens to hold.
unfoldable pub sha256_hash : List ℕ → List ℕ → List ℕ
sha256_hash buffer message = sha256_final (sha256_update (sha256_init buffer) message)
