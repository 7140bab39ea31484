-- ===== src/Command/Flags.antt =====
-- Which flag is missed.
use xns.Common.{
  ◌≡◌, ◌⊎◌, inl, inr, refl, ap, Bool-cases, true, false, List, [], ◌∷◌, ◌++◌, Bytes, ok, err,
  flag_required, All,
}
use xns.Command.{is_set, require_flags}

abbrev pub AreSet : List Bytes → List Bytes → Type 0
AreSet set names = All (λ name. is_set set name ≡ true) names

-- A name that is not set, behind names that are.
pub record IsFirstMissing (set names : List Bytes) (name : Bytes) : Type 0 where
  pub front : List Bytes
  pub back : List Bytes
  pub splits : names ≡ front ++ name ∷ back
  pub others : AreSet set front
  pub missing : is_set set name ≡ false

-- requireFlags succeeds if all names are set, and otherwise its error has the first name that is not.
pub require_flags_lem :
    (set names : List Bytes)
    → (AreSet set names × (require_flags set names ≡ ok tt))
      ⊎ ((name : Bytes) × IsFirstMissing set names name
          × (require_flags set names ≡ err (flag_required name)))
unfolding require_flags
require_flags_lem set [] = inl (tt, refl)
require_flags_lem set (name ∷ names) = elim (Bool-cases (is_set set name)) [
  | inr absent ↦ inr (
    name,
    record { front = []; back = names; splits = refl; others = tt; missing = absent },
    rw absent refl,
  )
  | inl given ↦ elim (require_flags_lem set names) [
    | inl (all, e) ↦ inl ((given, all), rw (given, e) refl)
    | inr (other, first, e) ↦ inr (
      other,
      record {
        front = name ∷ first.front;
        back = first.back;
        splits = ap (λ rest. name ∷ rest) first.splits;
        others = (given, first.others);
        missing = first.missing;
      },
      rw (given, e) refl,
    )
  ]
]
