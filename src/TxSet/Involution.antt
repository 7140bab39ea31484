-- ===== src/TxSet/Involution.antt =====
-- ChaCha20 undoes itself, so a sealed transaction set is opened again.
use xns.Common.{
  ℕ, zero, suc, ◌+◌, ◌-◌, ◌<◌, ◌≡◌, refl, ap, subst, ◌∙◌, [], ◌∷◌, ◌++◌, Bytes, ok, length, drop,
  length-append, length-drop, arith,
}
use xns.Common.Bits.{bit_xor_twice}
use xns.TxSet.Cipher.{Words, chacha20_block, xor_bytes, next, xor_loop, initial, chacha20_xor}
use Prim.Native.Nat.{min}

length-xor_bytes : (xs ks : Bytes) → length (xor_bytes xs ks) ≡ min (length xs) (length ks)
unfolding xor_bytes
length-xor_bytes [] ks = omega arith
length-xor_bytes (x ∷ xs) [] = omega arith
length-xor_bytes (x ∷ xs) (k ∷ ks) = omega (arith, length-xor_bytes xs ks)

length-chacha20_block : (s : Words) → length (chacha20_block s) ≡ 64
unfolding chacha20_block
length-chacha20_block s = refl

-- A block's worth of the source, with what follows for the rest of it.
drop-xor_bytes :
    (ks xs rest : Bytes)
    → length rest ≡ length xs - length ks
    → drop (length ks) (xor_bytes xs ks ++ rest) ≡ rest
unfolding xor_bytes
drop-xor_bytes [] [] rest h = refl
drop-xor_bytes [] (x ∷ xs) rest h = refl
drop-xor_bytes (k ∷ ks) [] [] h = refl
drop-xor_bytes (k ∷ ks) [] (r ∷ rest) h = absurd (omega arith)
drop-xor_bytes (k ∷ ks) (x ∷ xs) rest h = drop-xor_bytes ks xs rest (omega arith)

xor_bytes_twice :
    (ks xs rest : Bytes)
    → length rest ≡ length xs - length ks
    → xor_bytes (xor_bytes xs ks ++ rest) ks ++ drop (length ks) xs ≡ xs
unfolding xor_bytes
xor_bytes_twice [] [] [] h = refl
xor_bytes_twice [] [] (r ∷ rest) h = absurd (omega arith)
xor_bytes_twice [] (x ∷ xs) [] h = refl
xor_bytes_twice [] (x ∷ xs) (r ∷ rest) h = refl
xor_bytes_twice (k ∷ ks) [] [] h = refl
xor_bytes_twice (k ∷ ks) [] (r ∷ rest) h = absurd (omega arith)
xor_bytes_twice (k ∷ ks) (x ∷ xs) rest h =
    rw (bit_xor_twice, xor_bytes_twice ks xs rest (omega arith))

xor_loop-more :
    (fuel : ℕ) (s : Words) (src rest : Bytes)
    → 0 < length src
    → xor_loop fuel (next s) (drop 64 src) ≡ ok rest
    → xor_loop (suc fuel) s src ≡ ok (xor_bytes src (chacha20_block s) ++ rest)
unfolding xor_loop
xor_loop-more fuel s [] rest h e = absurd (omega arith)
xor_loop-more fuel s (x ∷ xs) rest h e = rw e

xor_loop_twice :
    (fuel : ℕ) (s : Words) (src : Bytes)
    → length src < fuel
    → (out : Bytes) × (length out ≡ length src)
      × (xor_loop fuel s src ≡ ok out)
      × (xor_loop fuel s out ≡ ok src)
xor_loop_twice zero s src h = absurd (omega arith)
xor_loop_twice (suc fuel) s [] h = ([], refl, unfold xor_loop in refl, unfold xor_loop in refl)
xor_loop_twice (suc fuel) s (x ∷ xs) h =
    let src : Bytes = x ∷ xs in
    let block = chacha20_block s in
    let whole = length-chacha20_block s in
    let (rest, size, there, back) =
      xor_loop_twice fuel (next s) (drop 64 src) (omega (arith, length-drop 64 src)) in
    let out = xor_bytes src block ++ rest in
    let fits : length rest ≡ length src - length block = omega (arith, length-drop 64 src) in
    let long : length out ≡ length src =
      omega (arith, length-append (xor_bytes src block) rest, length-xor_bytes src block) in
    let dropped : drop 64 out ≡ rest =
      subst (λ n. drop n out ≡ rest) whole (drop-xor_bytes block src rest fits) in
    let twice : xor_bytes out block ++ drop 64 src ≡ src =
      subst (λ n. xor_bytes out block ++ drop n src ≡ src) whole
        (xor_bytes_twice block src rest fits) in
    (
      out,
      long,
      xor_loop-more fuel s src rest (omega arith) there,
      xor_loop-more fuel s out (drop 64 src) (omega arith) (rw (dropped) back) ∙ ap ok twice,
    )

-- With a key of 32 bytes and a nonce of 8, chacha20XOR gives a result for any source, and undoes it.
pub chacha20_xor_twice :
    (src key nonce : Bytes)
    → length key ≡ 32
    → length nonce ≡ 8
    → (out : Bytes) × (length out ≡ length src)
      × (chacha20_xor src key nonce ≡ ok out)
      × (chacha20_xor out key nonce ≡ ok src)
unfolding chacha20_xor
chacha20_xor_twice src key nonce k n =
    let (out, size, there, back) =
      xor_loop_twice (length src + 1) (initial key nonce) src (omega arith) in
    (out, size, rw (k, n) there, rw (k, n, size) back)
