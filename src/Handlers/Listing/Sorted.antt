-- ===== src/Handlers/Listing/Sorted.antt =====
-- The order of a listing: the rows of the query, the newest first.
use event_driven_notificatio.Prelude.{
  ℕ, suc, ◌≤◌, length, ◌≡◌, refl, ap, ◌∙◌, sym, Bool, true, false, ◌&&◌, List, [], ◌∷◌, ◌++◌,
  filter, All, ◌==◌, if◌then◌else◌, if_false, arith, Bool-cases, inl, inr,
}
use mathlib.Core.List.{Perm}
use mathlib.Core.List.Perm
use event_driven_notificatio.Store.{Notification}
use event_driven_notificatio.Store.Batches.{earlier, sort_key, insert_row, newest_first}

earlier_irrefl : (a : ℕ × ℕ) → earlier a a ≡ false
unfolding earlier
earlier_irrefl a = ground arith

earlier_asym : (a b : ℕ × ℕ) → earlier a b ≡ true → earlier b a ≡ false
unfolding earlier
earlier_asym a b h = ground arith

earlier_trans : (a b c : ℕ × ℕ) → earlier a b ≡ true → earlier b c ≡ true → earlier a c ≡ true
unfolding earlier
earlier_trans a b c h h' = ground arith

-- Rows with different identifiers are in one order or the other.
earlier_total :
    (n m : Notification)
    → (n.id == m.id) ≡ false
    → earlier (sort_key n) (sort_key m) ≡ false
    → earlier (sort_key m) (sort_key n) ≡ true
unfolding earlier
earlier_total n m h h' = ground arith

-- The later rows of a listing come before the earlier.
abbrev pub Desc : List Notification → Type 0
Desc [] = Unit
Desc (n ∷ ns) = All (λ m. earlier (sort_key m) (sort_key n) ≡ true) ns × Desc ns

-- The primary key.
abbrev pub Unique : List Notification → Type 0
Unique [] = Unit
Unique (n ∷ ns) = All (λ m. (n.id == m.id) ≡ false) ns × Unique ns

All-insert_row {κ} :
    (P : Notification → Type κ) (n : Notification) (ns : List Notification)
    → P n
    → All P ns
    → All P (insert_row n ns)
unfolding insert_row
All-insert_row P n [] h hs = (h, tt)
All-insert_row P n (m ∷ ms) h hs = elim (Bool-cases (earlier (sort_key n) (sort_key m))) [
  | inl before ↦ rw before (hs.0, All-insert_row P n ms h hs.1)
  | inr after ↦ rw after (h, hs)
]

pub All-newest_first {κ} :
    (P : Notification → Type κ) (ns : List Notification) → All P ns → All P (newest_first ns)
unfolding newest_first
All-newest_first P [] h = tt
All-newest_first P (n ∷ ns) h = All-insert_row P n (newest_first ns) h.0 (All-newest_first P ns h.1)

All-map {κ κ'} :
    (P : Notification → Type κ) (Q : Notification → Type κ') (ns : List Notification)
    → ((n : Notification) → P n → Q n)
    → All P ns
    → All Q ns
All-map P Q [] f h = tt
All-map P Q (n ∷ ns) f h = (f n h.0, All-map P Q ns f h.1)

pub All-filter {κ} :
    (P : Notification → Type κ) (p : Notification → Bool) (ns : List Notification)
    → All P ns
    → All P (filter p ns)
All-filter P p [] h = tt
All-filter P p (n ∷ ns) h = elim (Bool-cases (p n)) [
  | inl keep ↦ rw keep (h.0, All-filter P p ns h.1)
  | inr drop ↦ rw drop (All-filter P p ns h.1)
]

pub Unique-filter :
    (p : Notification → Bool) (ns : List Notification) → Unique ns → Unique (filter p ns)
Unique-filter p [] h = tt
Unique-filter p (n ∷ ns) h = elim (Bool-cases (p n)) [
  | inl keep ↦ rw keep (All-filter (λ m. (n.id == m.id) ≡ false) p ns h.0, Unique-filter p ns h.1)
  | inr drop ↦ rw drop (Unique-filter p ns h.1)
]

insert_row-Desc :
    (n : Notification) (ns : List Notification)
    → All (λ m. (n.id == m.id) ≡ false) ns
    → Desc ns
    → Desc (insert_row n ns)
unfolding insert_row
insert_row-Desc n [] h d = (tt, tt)
insert_row-Desc n (m ∷ ms) h d = elim (Bool-cases (earlier (sort_key n) (sort_key m))) [
  | inl before ↦ rw before (
    All-insert_row (λ k. earlier (sort_key k) (sort_key m) ≡ true) n ms before d.0,
    insert_row-Desc n ms h.1 d.1,
  )
  | inr after ↦ rw after (
    (
      earlier_total n m h.0 after,
      All-map (λ k. earlier (sort_key k) (sort_key m) ≡ true)
          (λ k. earlier (sort_key k) (sort_key n) ≡ true) ms
          (λ k e.
            earlier_trans (sort_key k) (sort_key m) (sort_key n) e (earlier_total n m h.0 after))
          d.0,
    ),
    d,
  )
]

pub newest_first-Desc : (ns : List Notification) → Unique ns → Desc (newest_first ns)
unfolding newest_first
newest_first-Desc [] h = tt
newest_first-Desc (n ∷ ns) h =
    insert_row-Desc n (newest_first ns) (All-newest_first (λ m. (n.id == m.id) ≡ false) ns h.0)
      (newest_first-Desc ns h.1)

-- Filtering a listing is listing what is filtered.
module _ (q : Notification → Bool) where
  filter-insert_row_drop :
      (n : Notification) (ns : List Notification)
      → q n ≡ false
      → filter q (insert_row n ns) ≡ filter q ns
  unfolding insert_row
  filter-insert_row_drop n [] h = rw h refl
  filter-insert_row_drop n (m ∷ ms) h = elim (Bool-cases (earlier (sort_key n) (sort_key m))) [
    | inl before ↦ rw before (ap (λ r. if q m then m ∷ r else r) (filter-insert_row_drop n ms h))
    | inr after ↦ rw (after, h) refl
  ]

  insert_row_front :
      (n : Notification) (ns : List Notification)
      → All (λ m. earlier (sort_key n) (sort_key m) ≡ false) ns
      → insert_row n ns ≡ n ∷ ns
  unfolding insert_row
  insert_row_front n [] h = refl
  insert_row_front n (m ∷ ms) h = if_false _ _ h.0

  not_before :
      (n m k : Notification)
      → earlier (sort_key n) (sort_key m) ≡ false
      → earlier (sort_key k) (sort_key m) ≡ true
      → earlier (sort_key n) (sort_key k) ≡ false
  not_before n m k h h' = elim (Bool-cases (earlier (sort_key n) (sort_key k))) [
    | inl e ↦ let e' = earlier_trans (sort_key n) (sort_key k) (sort_key m) e h' in cc
    | inr e ↦ e
  ]

  filter-insert_row_keep :
      (n : Notification) (ns : List Notification)
      → q n ≡ true
      → Desc ns
      → filter q (insert_row n ns) ≡ insert_row n (filter q ns)
  unfolding insert_row
  filter-insert_row_keep n [] h d = rw h refl
  filter-insert_row_keep n (m ∷ ms) h d = elim (Bool-cases (earlier (sort_key n) (sort_key m))) [
    | inl before ↦ elim (Bool-cases (q m)) [
      | inl keep ↦ rw (before, keep, before) (ap (λ r. m ∷ r) (filter-insert_row_keep n ms h d.1))
      | inr drop ↦ rw (before, drop) (filter-insert_row_keep n ms h d.1)
    ]
    | inr after ↦
        rw (after, h)
          (sym (
            insert_row_front n (filter q (m ∷ ms)) (
              All-filter (λ k. earlier (sort_key n) (sort_key k) ≡ false) q (m ∷ ms)
                (
                  after,
                  All-map (λ k. earlier (sort_key k) (sort_key m) ≡ true)
                      (λ k. earlier (sort_key n) (sort_key k) ≡ false) ms
                      (λ k e. not_before n m k after e) d.0,
                ))))
  ]

  pub newest_first-filter :
      (p : Notification → Bool) (ns : List Notification)
      → Unique ns
      → newest_first (filter (λ n. p n && q n) ns) ≡ filter q (newest_first (filter p ns))
  unfolding newest_first
  newest_first-filter p [] u = refl
  newest_first-filter p (n ∷ ns) u =
      let rest = newest_first-filter p ns u.1 in
      elim (Bool-cases (p n)) [
        | inl hit ↦ elim (Bool-cases (q n)) [
          | inl keep ↦
              rw (hit, keep)
                (ap (insert_row n) rest
                  ∙ sym (
                      filter-insert_row_keep n (newest_first (filter p ns)) keep
                        (newest_first-Desc (filter p ns) (Unique-filter p ns u.1))))
          | inr drop ↦
              rw (hit, drop)
                (rest ∙ sym (filter-insert_row_drop n (newest_first (filter p ns)) drop))
        ]
        | inr miss ↦ rw miss rest
      ]

pub filter-All :
    (p : Notification → Bool) (ns : List Notification) → All (λ m. p m ≡ true) ns → filter p ns ≡ ns
filter-All p [] h = refl
filter-All p (n ∷ ns) h = rw h.0 (ap (λ r. n ∷ r) (filter-All p ns h.1))

pub All-middle {κ} :
    (P : Notification → Type κ) (xs : List Notification) (x : Notification) (ys : List Notification)
    → All P (xs ++ x ∷ ys)
    → P x
All-middle P [] x ys h = h.0
All-middle P (y ∷ xs) x ys h = All-middle P xs x ys h.1

-- The rows after the place of a row are those that the listing has behind it.
pub filter_behind :
    (xs : List Notification) (x : Notification) (ys : List Notification)
    → Desc (xs ++ x ∷ ys)
    → filter (λ n. earlier (sort_key n) (sort_key x)) (xs ++ x ∷ ys) ≡ ys
filter_behind [] x ys d =
    rw (earlier_irrefl (sort_key x)) (filter-All (λ n. earlier (sort_key n) (sort_key x)) ys d.0)
filter_behind (y ∷ xs) x ys d =
    rw
      (earlier_asym (sort_key x) (sort_key y)
        (All-middle (λ m. earlier (sort_key m) (sort_key y) ≡ true) xs x ys d.0))
      (filter_behind xs x ys d.1)

pub filter_true :
    (p : Notification → Bool) (ns : List Notification)
    → ((n : Notification) → p n ≡ true)
    → filter p ns ≡ ns
filter_true p [] h = refl
filter_true p (n ∷ ns) h = rw (h n) (ap (λ r. n ∷ r) (filter_true p ns h))

length-insert_row :
    (n : Notification) (ns : List Notification) → length (insert_row n ns) ≡ suc (length ns)
unfolding insert_row
length-insert_row n [] = refl
length-insert_row n (m ∷ ms) = ground (arith, length-insert_row n ms)

pub length-newest_first-le :
    (p : Notification → Bool) (ns : List Notification)
    → length (newest_first (filter p ns)) ≤ length ns
unfolding newest_first
length-newest_first-le p [] = omega arith
length-newest_first-le p (n ∷ ns) =
    let h = length-newest_first-le p ns in
    elim (Bool-cases (p n)) [
      | inl keep ↦
          let e = length-insert_row n (newest_first (filter p ns)) in rw keep (omega (arith, h, e))
      | inr drop ↦ rw drop (omega (arith, h))
    ]

insert_row-perm : (n : Notification) (ns : List Notification) → Perm (insert_row n ns) (n ∷ ns)
unfolding insert_row
insert_row-perm n [] = Perm.rfl
insert_row-perm n (m ∷ ms) = elim (Bool-cases (earlier (sort_key n) (sort_key m))) [
  | inl before ↦ rw before (Perm.trans (Perm.cons m (insert_row-perm n ms)) (Perm.swap n m ms))
  | inr after ↦ rw after Perm.rfl
]

pub newest_first-perm : (ns : List Notification) → Perm (newest_first ns) ns
unfolding newest_first
newest_first-perm [] = Perm.rfl
newest_first-perm (n ∷ ns) =
    Perm.trans (insert_row-perm n (newest_first ns)) (Perm.cons n (newest_first-perm ns))
