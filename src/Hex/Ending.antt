-- ===== src/Hex/Ending.antt =====
-- Decoding comes to an end.
use xns.Common.{
  ℕ, ◌&&◌, Bool-cases, inl, inr, [], ◌∷◌, Bytes, HasEnded, HasEnded-bind, HasEnded-ok, HasEnded-err,
  leb,
}
use xns.Hex.{digit, decode}

HasEnded-digit : (c : ℕ) → HasEnded (digit c)
unfolding digit HasEnded
HasEnded-digit c = elim (Bool-cases (leb b'0' c && leb c b'9')) [
  | inl e ↦ rw e tt
  | inr e ↦ elim (Bool-cases (leb b'a' c && leb c b'f')) [
    | inl e' ↦ rw (e, e') tt
    | inr e' ↦ elim (Bool-cases (leb b'A' c && leb c b'F')) [
      | inl e'' ↦ rw (e, e', e'') tt
      | inr e'' ↦ rw (e, e', e'') tt
    ]
  ]
]

pub decode-HasEnded : (text : Bytes) → HasEnded (decode text)
unfolding decode
decode-HasEnded [] = HasEnded-ok []
decode-HasEnded (p ∷ []) = HasEnded-bind _ _ (HasEnded-digit p) (λ _ _. HasEnded-err _ _)
decode-HasEnded (p ∷ q ∷ rest) = HasEnded-bind _ _ (HasEnded-digit p) (λ _ _.
    HasEnded-bind _ _ (HasEnded-digit q)
      (λ _ _. HasEnded-bind _ _ (decode-HasEnded rest) (λ _ _. HasEnded-ok _)))
