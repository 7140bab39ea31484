-- ===== src/Indexer/Shuffle.antt =====
-- Sorting gives the same list for every order of its input, where no two elements are equal for it.
pub mod Comparison
pub mod Keys
use xns.Common.{
  ◌≡◌, ◌⊎◌, inl, inr, refl, sym, ap, ◌∙◌, subst, Bool, Bool-cases, true, false, List, [], ◌∷◌,
  if◌then◌else◌, All,
}
use mathlib.Core.List.{Permᴰ}
use mathlib.Core.List.Permᴰ
use xns.Store.Sql.{insert_by, sort_by}

pub All-Permᴰ : {A : Type 0} (P : A → Type 0) {xs ys : List A} → Permᴰ xs ys → All P xs → All P ys
All-Permᴰ P Permᴰ.nil h = tt
All-Permᴰ P (Permᴰ.cons e d) (p, h) = (subst P e p, All-Permᴰ P d h)
All-Permᴰ P (Permᴰ.swap e f) (p, (q, h)) = (subst P f q, (subst P e p, h))
All-Permᴰ P (Permᴰ.trans d d') h = All-Permᴰ P d' (All-Permᴰ P d h)

-- All pairs of elements of a list.
module _ {A : Type 0} (R : A → A → Type 0) where
  abbrev pub AllPairs : List A → Type 0
  AllPairs [] = Unit {0}
  AllPairs (t ∷ ts) = All (R t) ts × AllPairs ts

  pub AllPairs-Permᴰ :
      (sym_r : (t u : A) → R t u → R u t) {xs ys : List A} → Permᴰ xs ys → AllPairs xs → AllPairs ys
  AllPairs-Permᴰ sym_r Permᴰ.nil h = tt
  AllPairs-Permᴰ sym_r (Permᴰ.cons {l₂ = ys} e d) (p, h) =
      (subst (λ x. All (R x) ys) e (All-Permᴰ (R _) d p), AllPairs-Permᴰ sym_r d h)
  AllPairs-Permᴰ sym_r (Permᴰ.swap {a = a} {b = b} {a' = a'} {b' = b'} {l = l} e f)
        ((ab, p), (q, h)) =
      (
        (subst (λ x. R x b') f (subst (λ x. R b x) e (sym_r a b ab)), subst (λ x. All (R x) l) f q),
        (subst (λ x. All (R x) l) e p, h),
      )
  AllPairs-Permᴰ sym_r (Permᴰ.trans d d') h = AllPairs-Permᴰ sym_r d' (AllPairs-Permᴰ sym_r d h)

module _ {A : Type 0} (before : A → A → Bool) where
  -- Exactly one of two stands before the other.
  pub data AreApart (t u : A) : Type 0 where
    first : before t u ≡ true → before u t ≡ false → AreApart t u
    second : before t u ≡ false → before u t ≡ true → AreApart t u

  AreApart-sym : (t u : A) → AreApart t u → AreApart u t
  AreApart-sym t u (first p q) = second q p
  AreApart-sym t u (second p q) = first q p

  abbrev pub AllApart : List A → Type 0
  AllApart ts = AllPairs AreApart ts

  module _ (weak : (v t u : A) → before v u ≡ true → before v t ≡ false → before t u ≡ true) where
    insert_by_comm :
        (t u : A) (xs : List A)
        → AreApart t u
        → insert_by before t (insert_by before u xs) ≡ insert_by before u (insert_by before t xs)
    unfolding insert_by
    insert_by_comm t u [] (first p q) = rw (p, q) refl
    insert_by_comm t u [] (second p q) = rw (p, q) refl
    insert_by_comm t u (v ∷ vs) apart = elim (Bool-cases (before v u)) [
      | inl b ↦ elim (Bool-cases (before v t)) [
        | inl c ↦ rw (b, c, b) (ap (λ r. v ∷ r) (insert_by_comm t u vs apart))
        | inr c ↦ rw (b, c, weak v t u b c, b) refl
      ]
      | inr b ↦ elim (Bool-cases (before v t)) [
        | inl c ↦ rw (b, c, weak v u t c b, b) refl
        | inr c ↦ elim apart [
          | first p q ↦ rw (b, c, p, q, b) refl
          | second p q ↦ rw (b, c, p, q) refl
        ]
      ]
    ]

    pub sort_by_shuffled :
        {xs ys : List A} → Permᴰ xs ys → AllApart xs → sort_by before xs ≡ sort_by before ys
    unfolding sort_by
    sort_by_shuffled Permᴰ.nil h = refl
    sort_by_shuffled (Permᴰ.cons {a = a} {b = b} {l₂ = ys} e d) (p, h) =
        ap (insert_by before a) (sort_by_shuffled d h)
        ∙ ap (λ x. insert_by before x (sort_by before ys)) e
    sort_by_shuffled (Permᴰ.swap {a = a} {b = b} {b' = b'} {l = l} e f) ((ab, p), h) =
        insert_by_comm a b (sort_by before l) ab
        ∙ ap (λ x. insert_by before b (insert_by before x (sort_by before l))) e
        ∙ ap (λ x. insert_by before x (insert_by before b' (sort_by before l))) f
    sort_by_shuffled (Permᴰ.trans d d') h =
        sort_by_shuffled d h ∙ sort_by_shuffled d' (AllPairs-Permᴰ AreApart AreApart-sym d h)
