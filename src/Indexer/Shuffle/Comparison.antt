-- ===== src/Indexer/Shuffle/Comparison.antt =====
-- The comparison of `sortTransfers`: of two transactions, one stands before the other.
use xns.Common.{
  ◌≡◌, inl, inr, refl, ap, ◌∙◌, subst, Bool-cases, true, false, List, [], ◌∷◌, Bytes, same,
  same_iff, less, less_irrefl, less_trans, less-total, All, arith,
}
use xns.Common.Table.{Table}
use xns.Store.Sql.{insert_by, sort_by}
use xns.Indexer.{Transfer}
use xns.Indexer.Ordering.{key_of, before, insert, sort}
use xns.Indexer.Shuffle.{AreApart, first, second, AllPairs, AllApart}

-- No two of the transfers are of the same transaction.
abbrev pub AreDistinct : Transfer → Transfer → Type 0
AreDistinct t u = same t.txid u.txid ≡ false

abbrev pub AllDistinct : List Transfer → Type 0
AllDistinct ts = AllPairs AreDistinct ts

pub AreDistinct-sym : (t u : Transfer) → AreDistinct t u → AreDistinct u t
AreDistinct-sym t u h = ground (arith, h, same_iff t.txid u.txid, same_iff u.txid t.txid)

pub less_weak : (a b c : Bytes) → less a b ≡ true → less a c ≡ false → less c b ≡ true
less_weak a b c h k = elim (Bool-cases (less c a)) [
  | inl d ↦ less_trans c a b d h
  | inr d ↦ subst (λ x. less x b ≡ true) (less-total a c k d) h
]

pub less_asym : (a b : Bytes) → less a b ≡ true → less b a ≡ false
less_asym a b h = elim (Bool-cases (less b a)) [
  | inl k ↦ cc (less_trans a b a h k, less_irrefl a)
  | inr k ↦ k
]

pub before-AreApart :
    (keys : Table Bytes) (t u : Transfer) → same t.txid u.txid ≡ false → AreApart (before keys) t u
unfolding before
before-AreApart keys t u distinct =
    let k = key_of keys t.txid in
    let l = key_of keys u.txid in
    elim (Bool-cases (before keys t u)) [
      | inl b ↦ elim (Bool-cases (before keys u t)) [
        | inl c ↦
            absurd (ground (arith, b, c, less_asym k l, less_asym l k, less_asym t.txid u.txid))
        | inr c ↦ first b c
      ]
      | inr b ↦ elim (Bool-cases (before keys u t)) [
        | inl c ↦ second b c
        | inr c ↦
            absurd
              (ground (arith, b, c, distinct, same_iff t.txid u.txid, less-total t.txid u.txid))
      ]
    ]

pub before_weak :
    (keys : Table Bytes) (v t u : Transfer)
    → before keys v u ≡ true
    → before keys v t ≡ false
    → before keys t u ≡ true
unfolding before
before_weak keys v t u h k =
    let kv = key_of keys v.txid in
    let kt = key_of keys t.txid in
    let ku = key_of keys u.txid in
    ground (
      arith,
      h,
      k,
      less_weak kv ku kt,
      less_weak kt kv ku,
      less_weak ku kt kv,
      less_weak v.txid u.txid t.txid,
    )

pub AllDistinct-AllApart :
    (keys : Table Bytes) (ts : List Transfer) → AllDistinct ts → AllApart (before keys) ts
AllDistinct-AllApart keys [] h = tt
AllDistinct-AllApart keys (t ∷ ts) (p, h) = (All-map ts p, AllDistinct-AllApart keys ts h)
  where
    All-map : (us : List Transfer) → All (AreDistinct t) us → All (AreApart (before keys) t) us
    All-map [] q = tt
    All-map (u ∷ us) (d, q) = (before-AreApart keys t u d, All-map us q)

abbrev pub Agree : Table Bytes → Table Bytes → List Transfer → Type 0
Agree ks ls ts = All (λ (t : Transfer). key_of ks t.txid ≡ key_of ls t.txid) ts

pub before-Agree :
    (ks ls : Table Bytes) (t u : Transfer)
    → key_of ks t.txid ≡ key_of ls t.txid
    → key_of ks u.txid ≡ key_of ls u.txid
    → before ks t u ≡ before ls t u
unfolding before
before-Agree ks ls t u e f = rw (e, f) refl

pub insert-Agree :
    (ks ls : Table Bytes) (t : Transfer) (us : List Transfer)
    → key_of ks t.txid ≡ key_of ls t.txid
    → Agree ks ls us
    → (insert ks t us ≡ insert ls t us) × Agree ks ls (insert ls t us)
unfolding insert
insert-Agree ks ls t [] e h = (refl, (e, tt))
insert-Agree ks ls t (u ∷ us) e (f, h) =
    let (same_rest, all) = insert-Agree ks ls t us e h in
    elim (Bool-cases (before ls u t)) [
      | inl b ↦ (rw (before-Agree ks ls u t f e, b, same_rest) refl, rw b (f, all))
      | inr b ↦ (rw (before-Agree ks ls u t f e, b) refl, rw b (e, (f, h)))
    ]

pub sort-Agree :
    (ks ls : Table Bytes) (ts : List Transfer)
    → Agree ks ls ts
    → (sort ks ts ≡ sort ls ts) × Agree ks ls (sort ls ts)
unfolding sort
sort-Agree ks ls [] h = (refl, h)
sort-Agree ks ls (t ∷ ts) (e, rest) =
    let (same_rest, all) = sort-Agree ks ls ts rest in
    let (same_list, agree) = insert-Agree ks ls t (sort ls ts) e all in
    (ap (insert ks t) same_rest ∙ same_list, agree)

pub sort-sort_by :
    (keys : Table Bytes) (ts : List Transfer) → sort keys ts ≡ sort_by (before keys) ts
unfolding sort sort_by
sort-sort_by keys [] = refl
sort-sort_by keys (t ∷ ts) =
    ap (insert keys t) (sort-sort_by keys ts) ∙ inserted (sort_by (before keys) ts)
  where
    inserted : (us : List Transfer) → insert keys t us ≡ insert_by (before keys) t us
    inserted [] = refl
    inserted (u ∷ us) = elim (Bool-cases (before keys u t)) [
      | inl b ↦ rw (b, insert, insert_by) (ap (λ r. u ∷ r) (inserted us))
      | inr b ↦ rw (b, insert, insert_by) refl
    ]
