-- ===== src/Store/Ordered.antt =====
-- Rows in order: found by their name, and in the order of their positions.
use xns.Common.{
  ◌≡◌, refl, ◌∙◌, Bool, true, false, Option, none, some, List, [], ◌∷◌, ◌++◌, Bytes, same, same_iff,
  All, Bool-cases, inl, inr, arith, if◌then◌else◌,
}
use mathlib.Core.List.{Perm}
use mathlib.Core.List.Perm
use xns.Store.{NameRow}
use xns.Store.Sql.{insert_by, sort_by, name_before}

module _ {A : Type 0} (before : A → A → Bool) where
  pub All-insert_by :
      (P : A → Type 0) (x : A) (ys : List A) → P x → All P ys → All P (insert_by before x ys)
  unfolding insert_by
  All-insert_by P x [] p h = (p, tt)
  All-insert_by P x (y ∷ ys) p (q, h) = elim (Bool-cases (before y x)) [
    | inl b ↦ rw b (q, All-insert_by P x ys p h)
    | inr b ↦ rw b (p, (q, h))
  ]

  pub All-sort_by : (P : A → Type 0) (xs : List A) → All P xs → All P (sort_by before xs)
  unfolding sort_by
  All-sort_by P [] h = tt
  All-sort_by P (x ∷ xs) (p, h) = All-insert_by P x (sort_by before xs) p (All-sort_by P xs h)

  insert_by-perm : (x : A) (ys : List A) → Perm (insert_by before x ys) (x ∷ ys)
  unfolding insert_by
  insert_by-perm x [] = Perm.rfl
  insert_by-perm x (y ∷ ys) = elim (Bool-cases (before y x)) [
    | inl b ↦ rw b (Perm.trans (Perm.cons y (insert_by-perm x ys)) (Perm.swap x y ys))
    | inr b ↦ rw b Perm.rfl
  ]

  pub sort_by-perm : (xs : List A) → Perm (sort_by before xs) xs
  unfolding sort_by
  sort_by-perm [] = Perm.rfl
  sort_by-perm (x ∷ xs) =
      Perm.trans (insert_by-perm x (sort_by before xs)) (Perm.cons x (sort_by-perm xs))

  -- What comes behind all others is put at the end.
  pub insert_by_last :
      (x : A) (ys : List A) → All (λ y. before y x ≡ true) ys → insert_by before x ys ≡ ys ++ x ∷ []
  unfolding insert_by
  insert_by_last x [] h = refl
  insert_by_last x (y ∷ ys) (b, h) = rw (b, insert_by_last x ys h)

-- The row of a name.
unfoldable pub find_row : List NameRow → Bytes → Option NameRow
find_row [] k = none
find_row (r ∷ rs) k = if same r.name k then some r else find_row rs k

-- No row has this row's name.
abbrev pub IsOnly : NameRow → List NameRow → Type 0
IsOnly row rs = All (λ (r : NameRow). same r.name row.name ≡ false) rs

abbrev pub IsDistinct : List NameRow → Type 0
IsDistinct [] = Unit {0}
IsDistinct (r ∷ rs) = IsOnly r rs × IsDistinct rs

find_row-insert_by :
    (r : NameRow) (rs : List NameRow) (k : Bytes)
    → IsOnly r rs
    → find_row (insert_by name_before r rs) k ≡ (if same r.name k then some r else find_row rs k)
unfolding insert_by find_row
find_row-insert_by r [] k h = refl
find_row-insert_by r (s ∷ rs) k (p, h) = elim (Bool-cases (name_before s r)) [
  | inl b ↦
      rw (b, find_row-insert_by r rs k h)
        (ground (arith, p, same_iff r.name k, same_iff s.name k, same_iff s.name r.name))
  | inr b ↦ rw b refl
]

pub find_row-sort_by :
    (rs : List NameRow) (k : Bytes)
    → IsDistinct rs
    → find_row (sort_by name_before rs) k ≡ find_row rs k
unfolding sort_by find_row
find_row-sort_by [] k h = refl
find_row-sort_by (r ∷ rs) k (p, h) =
    find_row-insert_by r (sort_by name_before rs) k
      (All-sort_by name_before (λ (s : NameRow). same s.name r.name ≡ false) rs p)
    ∙ rw (find_row-sort_by rs k h) refl

IsDistinct-insert_by :
    (r : NameRow) (rs : List NameRow)
    → IsOnly r rs
    → IsDistinct rs
    → IsDistinct (insert_by name_before r rs)
unfolding insert_by
IsDistinct-insert_by r [] h d = (tt, tt)
IsDistinct-insert_by r (s ∷ rs) (p, h) (only, d) = elim (Bool-cases (name_before s r)) [
  | inl b ↦ rw b (
    All-insert_by name_before (λ (x : NameRow). same x.name s.name ≡ false) r rs
        (ground (arith, p, same_iff r.name s.name, same_iff s.name r.name)) only,
    IsDistinct-insert_by r rs h d,
  )
  | inr b ↦ rw b ((p, h), (only, d))
]

pub IsDistinct-sort_by : (rs : List NameRow) → IsDistinct rs → IsDistinct (sort_by name_before rs)
unfolding sort_by
IsDistinct-sort_by [] h = tt
IsDistinct-sort_by (r ∷ rs) (p, h) =
    IsDistinct-insert_by r (sort_by name_before rs)
      (All-sort_by name_before (λ (s : NameRow). same s.name r.name ≡ false) rs p)
      (IsDistinct-sort_by rs h)
