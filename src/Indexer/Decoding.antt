-- ===== src/Indexer/Decoding.antt =====
-- `DecodeExtra`: the numbers of a transaction's JSON as bytes.
use xns.Common.{
  ℕ, ◌+◌, ◌≡◌, refl, ap, subst, ◌↔◌, inl, inr, List, [], ◌∷◌, map, Bytes, IsByte, ok, ok-injective,
  >>=-eq-ok, Bool-cases, false, ltb, All, arith,
}
use xns.Common.Int.{ℤ, pos, negsuc}
use xns.Indexer.{Answers}
use xns.Indexer.Scan.{bytes_of, decode_extra}

bytes_of-bytes : (bs : Bytes) (i : ℕ) → All IsByte bs → bytes_of (map pos bs) i ≡ ok bs
unfolding bytes_of
bytes_of-bytes [] i h = refl
bytes_of-bytes (b ∷ bs) i (small, h) =
    let inside : ltb 255 b ≡ false = ground arith in rw (inside, bytes_of-bytes bs (i + 1) h)

bytes_of_lem :
    (ns : List ℤ) (i : ℕ) (bs : Bytes) → bytes_of ns i ≡ ok bs → (ns ≡ map pos bs) × All IsByte bs
unfolding bytes_of
bytes_of_lem [] i bs h =
    subst (λ (cs : Bytes). ([] ≡ map pos cs) × All IsByte cs) (ok-injective h) (refl, tt)
bytes_of_lem (negsuc k ∷ ns) i bs h = cc
bytes_of_lem (pos n ∷ ns) i bs h = elim (Bool-cases (ltb 255 n)) [
  | inl over ↦ cc (rw (over, bytes_of) at h)
  | inr fits ↦
      let (cs, rest, e) = >>=-eq-ok (bytes_of ns (i + 1)) _ (rw (fits, bytes_of) at h) in
      let (same_ns, small) = bytes_of_lem ns (i + 1) cs rest in
      subst (λ (ds : Bytes). (pos n ∷ ns ≡ map pos ds) × All IsByte ds) (ok-injective e)
        (ap (λ (ms : List ℤ). pos n ∷ ms) same_ns, (ground arith, small))
]

-- Where the JSON holds numbers, DecodeExtra gives bytes exactly if the numbers are those bytes, each
-- from 0 to 255.
pub decode_extra_iff :
    (w : Answers) (as_json bs : Bytes) (ns : List ℤ)
    → w.parse_extra as_json ≡ ok ns
    → (decode_extra w as_json ≡ ok bs) ↔ ((ns ≡ map pos bs) × All IsByte bs)
unfolding decode_extra
decode_extra_iff w as_json bs ns h =
    (λ e. bytes_of_lem ns 0 bs (rw h at e), λ p. rw (h, p.0) (bytes_of-bytes bs 0 p.1))
