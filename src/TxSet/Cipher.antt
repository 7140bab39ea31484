-- ===== src/TxSet/Cipher.antt =====
-- `chacha20XOR`: the key stream of ChaCha20 with a nonce of 8 bytes and a counter of 64 bits.
use xns.Common.{
  ℕ, zero, suc, ◌+◌, ◌-◌, ◌*◌, ◌/◌, ◌%◌, ◌^◌, not, ◌&&◌, [], ◌∷◌, ◌++◌, Bytes, Result, ok, panic,
  stuck, ◌>>=◌, length, take, drop, ◌==◌, if◌then◌else◌,
}
use xns.Edwards.{from_le}
use Prim.Native.Nat.{bit_or, bit_xor}

-- `[16]uint32`
pub record Words : Type 0 where
  pub w0 : ℕ
  pub w1 : ℕ
  pub w2 : ℕ
  pub w3 : ℕ
  pub w4 : ℕ
  pub w5 : ℕ
  pub w6 : ℕ
  pub w7 : ℕ
  pub w8 : ℕ
  pub w9 : ℕ
  pub w10 : ℕ
  pub w11 : ℕ
  pub w12 : ℕ
  pub w13 : ℕ
  pub w14 : ℕ
  pub w15 : ℕ

-- `x << n | x >> (32 - n)` in a uint32.
rotate : ℕ → ℕ → ℕ
rotate n x = bit_or (x * 2 ^ n % 2 ^ 32) (x / 2 ^ (32 - n))

plus : ℕ → ℕ → ℕ
plus x y = (x + y) % 2 ^ 32

unfoldable pub quarter_round : ℕ → ℕ → ℕ → ℕ → ℕ × ℕ × ℕ × ℕ
unfolding rotate plus
quarter_round a b c d =
    let a = plus a b in
    let d = rotate 16 (bit_xor d a) in
    let c = plus c d in
    let b = rotate 12 (bit_xor b c) in
    let a = plus a b in
    let d = rotate 8 (bit_xor d a) in
    let c = plus c d in let b = rotate 7 (bit_xor b c) in (a, b, c, d)

-- Four rounds on the columns, four on the diagonals.
double_round : Words → Words
unfolding quarter_round
double_round x =
    let (x0, x4, x8, x12) = quarter_round x.w0 x.w4 x.w8 x.w12 in
    let (x1, x5, x9, x13) = quarter_round x.w1 x.w5 x.w9 x.w13 in
    let (x2, x6, x10, x14) = quarter_round x.w2 x.w6 x.w10 x.w14 in
    let (x3, x7, x11, x15) = quarter_round x.w3 x.w7 x.w11 x.w15 in
    let (x0, x5, x10, x15) = quarter_round x0 x5 x10 x15 in
    let (x1, x6, x11, x12) = quarter_round x1 x6 x11 x12 in
    let (x2, x7, x8, x13) = quarter_round x2 x7 x8 x13 in
    let (x3, x4, x9, x14) = quarter_round x3 x4 x9 x14 in
    record {
      w0 = x0;
      w1 = x1;
      w2 = x2;
      w3 = x3;
      w4 = x4;
      w5 = x5;
      w6 = x6;
      w7 = x7;
      w8 = x8;
      w9 = x9;
      w10 = x10;
      w11 = x11;
      w12 = x12;
      w13 = x13;
      w14 = x14;
      w15 = x15;
    }

double_rounds : ℕ → Words → Words
unfolding double_round
double_rounds zero x = x
double_rounds (suc n) x = double_rounds n (double_round x)

-- `PutUint32` of the sum of two words, in front of what follows.
put_sum : ℕ → ℕ → Bytes → Bytes
unfolding plus
put_sum x y rest =
    let z = plus x y in z % 256 ∷ z / 2 ^ 8 % 256 ∷ z / 2 ^ 16 % 256 ∷ z / 2 ^ 24 % 256 ∷ rest

unfoldable pub chacha20_block : Words → Bytes
unfolding double_rounds put_sum
chacha20_block s =
    let x = double_rounds 10 s in
    put_sum x.w0 s.w0 (
      put_sum x.w1 s.w1 (
        put_sum x.w2 s.w2 (
          put_sum x.w3 s.w3 (
            put_sum x.w4 s.w4 (
              put_sum x.w5 s.w5 (
                put_sum x.w6 s.w6 (
                  put_sum x.w7 s.w7 (
                    put_sum x.w8 s.w8 (
                      put_sum x.w9 s.w9 (
                        put_sum x.w10 s.w10 (
                          put_sum x.w11 s.w11 (
                            put_sum x.w12 s.w12 (
                              put_sum x.w13 s.w13
                                (put_sum x.w14 s.w14 (put_sum x.w15 s.w15 [])))))))))))))))

-- `src[i] ^ block[i]` as far as both go.
unfoldable pub xor_bytes : Bytes → Bytes → Bytes
xor_bytes [] ks = []
xor_bytes (x ∷ xs) [] = []
xor_bytes (x ∷ xs) (k ∷ ks) = bit_xor x k ∷ xor_bytes xs ks

-- The counter of the next block.
unfoldable pub next : Words → Words
unfolding plus
next s =
    let low = plus s.w12 1 in record s { w12 = low; w13 = if low == 0 then plus s.w13 1 else s.w13 }

-- A round takes 64 bytes of the source, so `length src + 1` rounds are enough.
unfoldable pub xor_loop : ℕ → Words → Bytes → Result Bytes
xor_loop zero s src = stuck
xor_loop (suc fuel) s [] = ok []
xor_loop (suc fuel) s (b ∷ bs) = do
  rest ← xor_loop fuel (next s) (drop 64 (b ∷ bs))
  ok (xor_bytes (b ∷ bs) (chacha20_block s) ++ rest)

-- The word at an offset, its low byte first.
word : Bytes → ℕ → ℕ
word bs i = from_le (take 4 (drop i bs))

unfoldable pub initial : Bytes → Bytes → Words
unfolding word from_le
initial key nonce = record {
  w0 = 0x61707865;
  w1 = 0x3320646e;
  w2 = 0x79622d32;
  w3 = 0x6b206574;
  w4 = word key 0;
  w5 = word key 4;
  w6 = word key 8;
  w7 = word key 12;
  w8 = word key 16;
  w9 = word key 20;
  w10 = word key 24;
  w11 = word key 28;
  w12 = 0;
  w13 = 0;
  w14 = word nonce 0;
  w15 = word nonce 4;
}

unfoldable pub chacha20_xor : Bytes → Bytes → Bytes → Result Bytes
chacha20_xor src key nonce =
    if not (length key == 32 && length nonce == 8)
    then panic
    else xor_loop (length src + 1) (initial key nonce) src
