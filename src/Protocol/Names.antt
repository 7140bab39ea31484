-- ===== src/Protocol/Names.antt =====
-- Which names `valid_name` takes, and the round trip of the name field.
pub mod RoundTrip
use xns.Common.{
  ℕ, zero, suc, ◌+◌, ◌-◌, ◌≤◌, ◌<◌, ◌≡◌, ◌≢◌, ◌↔◌, ◌⊎◌, inl, inr, refl, ap, Bool, true, false,
  Option, none, some, [], ◌∷◌, ◌++◌, Bytes, Result, ok, err, panic, stuck, index, check, ◌>>=◌,
  ◌>>◌, >>=-eq-ok, ok-injective, length, take, drop, replicate, get_elem?, All, Bool-cases, ltb,
  arith,
}
use xns.Protocol.{
  is_name_edge, is_name_char, all_name_chars, valid_name, name_size, encode_name, decode_name,
  zero_index, all_zero,
}

-- A lowercase letter or a digit, and those with the dash.
abbrev pub IsLetterOrDigit : ℕ → Type 0
IsLetterOrDigit c = (b'a' ≤ c) × (c ≤ b'z') ⊎ (b'0' ≤ c) × (c ≤ b'9')

abbrev pub IsNameByte : ℕ → Type 0
IsNameByte c = IsLetterOrDigit c ⊎ (c ≡ b'-')

-- The names that the protocol allows, said apart from the code that tests them.
pub record IsName (name : Bytes) : Type 0 where
  pub nonempty : 1 ≤ length name
  pub fits : length name ≤ 32
  pub chars : All IsNameByte name
  pub starts : (c : ℕ) → get_elem? name 0 ≡ some c → IsLetterOrDigit c
  pub ends : (c : ℕ) → get_elem? name (length name - 1) ≡ some c → IsLetterOrDigit c

is_name_edge_iff : (c : ℕ) → (is_name_edge c ≡ true) ↔ IsLetterOrDigit c
unfolding is_name_edge
is_name_edge_iff c = (λ h. ground (arith, h), λ h. ground (arith, h))

is_name_char_iff : (c : ℕ) → (is_name_char c ≡ true) ↔ IsNameByte c
unfolding is_name_char is_name_edge
is_name_char_iff c = (λ h. ground (arith, h), λ h. ground (arith, h))

chars_iff : (name : Bytes) → All (λ c. is_name_char c ≡ true) name ↔ All IsNameByte name
chars_iff [] = (λ h. h, λ h. h)
chars_iff (c ∷ cs) = (
  λ (p, h). ((is_name_char_iff c).0 p, (chars_iff cs).0 h),
  λ (p, h). ((is_name_char_iff c).1 p, (chars_iff cs).1 h),
)

-- The code's test holds of each character of an allowed name.
pub chars-IsName : (name : Bytes) → IsName name → All (λ c. is_name_char c ≡ true) name
chars-IsName name h = (chars_iff name).1 h.chars

all_name_chars_iff :
    (name : Bytes) → (all_name_chars name ≡ true) ↔ All (λ c. is_name_char c ≡ true) name
unfolding all_name_chars
all_name_chars_iff [] = (λ _. tt, λ _. refl)
all_name_chars_iff (c ∷ cs) = (
  λ h. ground (arith, (all_name_chars_iff cs).0),
  λ h. ground (arith, (all_name_chars_iff cs).1 h.1),
)

index-in_range :
    (xs : Bytes) (i : ℕ) → i < length xs → (c : ℕ) × (index xs i ≡ ok c) × (get_elem? xs i ≡ some c)
unfolding index
index-in_range [] i h = absurd (omega arith)
index-in_range (x ∷ xs) zero h = (x, refl, refl)
index-in_range (x ∷ xs) (suc i) h = index-in_range xs i (omega arith)

index_lem : (xs : Bytes) (i c : ℕ) → get_elem? xs i ≡ some c → index xs i ≡ ok c
unfolding index
index_lem [] i c h = cc
index_lem (x ∷ xs) zero c h = cc
index_lem (x ∷ xs) (suc i) c h = index_lem xs i c h

IsName-valid_name : (name : Bytes) → valid_name name ≡ ok tt → IsName name
unfolding valid_name
IsName-valid_name name h = record {
  nonempty = ground arith;
  fits = ground arith;
  chars = (chars_iff name).0 ((all_name_chars_iff name).0 (ground arith));
  starts = λ c e. (is_name_edge_iff c).0 (ground (arith, index_lem name 0 c));
  ends = λ c e. (is_name_edge_iff c).0 (ground (arith, index_lem name (length name - 1) c));
}

valid_name-IsName : (name : Bytes) → IsName name → valid_name name ≡ ok tt
unfolding valid_name
valid_name-IsName name h =
    let (a, ea, sa) = index-in_range name 0 (omega (arith, h.nonempty)) in
    let (z, ez, sz) = index-in_range name (length name - 1) (omega (arith, h.nonempty)) in
    ground (
      arith,
      h.nonempty,
      h.fits,
      (all_name_chars_iff name).1 (chars-IsName name h),
      ea,
      ez,
      (is_name_edge_iff a).1 (h.starts a sa),
      (is_name_edge_iff z).1 (h.ends z sz),
    )

-- ValidName returns nil exactly for the names of 1 to 32 bytes that are lowercase letters, digits and
-- dashes, and neither begin nor end with a dash.
pub valid_name_iff : (name : Bytes) → (valid_name name ≡ ok tt) ↔ IsName name
valid_name_iff name = (IsName-valid_name name, valid_name-IsName name)

-- `valid_name` does not index out of range: it returns nil or an error.
pub valid_name_total : (name : Bytes) → (valid_name name ≢ panic) × (valid_name name ≢ stuck)
unfolding valid_name
valid_name_total name = elim (Bool-cases (ltb (length name) 1)) [
  | inl short ↦ (λ e. ground arith, λ e. ground arith)
  | inr long ↦
      let (a, ea, sa) = index-in_range name 0 (ground arith) in
      let (z, ez, sz) = index-in_range name (length name - 1) (ground arith) in
      (λ e. ground (arith, ea, ez), λ e. ground (arith, ea, ez))
]
