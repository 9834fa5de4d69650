-- ===== src/Handlers/Listing/Pages.antt =====
-- The pages of a listing put together.
use event_driven_notificatio.Prelude.{
  ℕ, zero, suc, ◌+◌, ◌≤◌, ◌<◌, ◌≡◌, refl, ap, ◌∙◌, sym, Bool, true, false, ◌&&◌, String, str_eq,
  List, [], ◌∷◌, ◌++◌, map, filter, All, ltb, leb, length, take, Option, none, some, if◌then◌else◌,
  if_true, if_false, arith, Bool-cases, inl, inr,
}
use mathlib.Core.List.{Perm, append_assoc, append-nil, map-append}
use event_driven_notificatio.Store.{Notification, Db}
use event_driven_notificatio.Store.Notifications.{owned_by}
use event_driven_notificatio.Store.Batches.{earlier, sort_key, newest_first}
use event_driven_notificatio.Http.{written, refused}
use event_driven_notificatio.Auth.{Context, is_admin, owner_from_ctx}
use event_driven_notificatio.Handlers.{NotificationResponse}
use event_driven_notificatio.Handlers.Listing.{
  Cursor, Parsers, ListQuery, ListResponse, decode_cursor, scan_to_response, capped, page_limit,
  clauses, built, conjunction, after_cursor, select_page, last_of, page_of, list, answer_cursor,
  answer_owner, answer_built, answer_rows,
}
use event_driven_notificatio.Handlers.Listing.Sorted.{
  Desc, Unique, All-filter, All-newest_first, All-middle, Unique-filter, newest_first-Desc,
  newest_first-filter, filter_behind, filter_true, length-newest_first-le, newest_first-perm,
}

-- Whose rows a key may list: all, its own, or none at all.
unfoldable pub visible : Context → Option (Notification → Bool)
visible ctx = if is_admin ctx then some (λ n. true) else elim (owner_from_ctx ctx) [
  | none ↦ none
  | some owner ↦ some (λ n. owned_by owner n.created_by)
]

-- A query whose parameters are accepted, for a caller that is known: what it selects and the size of
-- its pages.
pub record Admitted (ctx : Context) (parsers : Parsers) (q : ListQuery) : Type 0 where
  pub own : Notification → Bool
  pub wanted : Notification → Bool
  pub limit : ℕ
  pub sees : visible ctx ≡ some own
  pub sized : page_limit parsers q.limit ≡ some limit
  pub built_as : conjunction (clauses ctx parsers q) ≡ built wanted

-- The listing without pages.
unfoldable pub listing : (Notification → Bool) → Db → List Notification
listing p db = newest_first (filter p db.notifications)

-- A client that follows the cursors from a query on, at most `fuel` pages.
unfoldable pub follow : ℕ → Context → Parsers → ListQuery → Db → List NotificationResponse
unfolding list
follow zero ctx parsers q db = []
follow (suc fuel) ctx parsers q db = elim (list ctx parsers none q db) [
  | refused p ↦ []
  | written s r ↦ r.items ++ (elim r.next_cursor [
    | none ↦ []
    | some c ↦ follow fuel ctx parsers (record q { cursor = c }) db
  ])
]

-- A list cut after its first k elements, of which there is a last.
record Cut (k : ℕ) (ns : List Notification) : Type 0 where
  pub front : List Notification
  pub last : Notification
  pub rest : List Notification
  pub whole : ns ≡ front ++ last ∷ rest
  pub page : take k ns ≡ front ++ last ∷ []
  pub shorter : length rest < length ns

cut : (k : ℕ) (ns : List Notification) → suc k < length ns → Cut (suc k) ns
cut k [] h = let e : ⊥ = omega (arith, h) in elim e [ ]
cut zero (n ∷ ns) h = record {
  front = [];
  last = n;
  rest = ns;
  whole = refl;
  page = refl;
  shorter = omega arith;
}
cut (suc k) (n ∷ ns) h =
    let c = cut k ns (omega (arith, h)) in
    record {
      front = n ∷ c.front;
      last = c.last;
      rest = c.rest;
      whole = ap (λ r. n ∷ r) c.whole;
      page = ap (λ r. n ∷ r) c.page;
      shorter = (let s = c.shorter in omega (arith, s));
    }

take-take_suc : (k : ℕ) (ns : List Notification) → take k (take (suc k) ns) ≡ take k ns
take-take_suc zero ns = refl
take-take_suc (suc k) [] = refl
take-take_suc (suc k) (n ∷ ns) = ap (λ r. n ∷ r) (take-take_suc k ns)

take_all : (k : ℕ) (ns : List Notification) → length ns ≤ k → take k ns ≡ ns
take_all zero [] h = refl
take_all zero (n ∷ ns) h = let e : ⊥ = omega (arith, h) in elim e [ ]
take_all (suc k) [] h = refl
take_all (suc k) (n ∷ ns) h = ap (λ r. n ∷ r) (take_all k ns (omega (arith, h)))

length-take : (k : ℕ) (ns : List Notification) → k ≤ length ns → length (take k ns) ≡ k
length-take zero ns h = refl
length-take (suc k) [] h = omega (arith, h)
length-take (suc k) (n ∷ ns) h = let e = length-take k ns (omega (arith, h)) in omega (arith, e)

last_of-append : (xs : List Notification) (x : Notification) → last_of (xs ++ x ∷ []) ≡ some x
unfolding last_of
last_of-append [] x = refl
last_of-append (y ∷ []) x = refl
last_of-append (y ∷ z ∷ ys) x = last_of-append (z ∷ ys) x

capped_bounds : (o : Option ℕ) (limit : ℕ) → capped o ≡ some limit → (1 ≤ limit) × (limit ≤ 200)
capped_bounds none limit h = cc
capped_bounds (some n) limit h = ground arith

page_limit_bounds :
    (parsers : Parsers) (raw : String) (limit : ℕ)
    → page_limit parsers raw ≡ some limit
    → (1 ≤ limit) × (limit ≤ 200)
unfolding page_limit
page_limit_bounds parsers raw limit h = elim (Bool-cases (str_eq raw "")) [
  | inl empty ↦
      let e : some 50 ≡ some limit = sym (if_true _ _ empty) ∙ h in
      let l : ◌≡◌ {A = ℕ} 50 limit = cc in omega (arith, l)
  | inr given ↦ capped_bounds (parsers.atoi raw) limit (sym (if_false _ _ given) ∙ h)
]

-- The cursor at a row survives its encoding.
abbrev pub Survives : Parsers → Notification → Type 0
Survives parsers n = decode_cursor parsers (parsers.encode (sort_key n)) ≡ some (some (sort_key n))

positive : (n : ℕ) → 1 ≤ n → (k : ℕ) × (n ≡ suc k)
positive zero h = let e : ⊥ = omega (arith, h) in elim e [ ]
positive (suc k) h = (k, refl)

module _ (ctx : Context) (parsers : Parsers) (q : ListQuery) (db : Db)
    (roundtrip : All (Survives parsers) db.notifications) (unique : Unique db.notifications)
    (a : Admitted ctx parsers q) where
  abbrev p : Notification → Bool
  p n = a.own n && a.wanted n

  abbrev sorted : List Notification
  sorted = newest_first (filter p db.notifications)

  scoped_answer :
      (c : String) (own : Notification → Bool) (limit : ℕ) (cur : Cursor)
      → visible ctx ≡ some own
      → answer_cursor ctx parsers none (record q { cursor = c }) db limit (some cur)
        ≡ answer_built ctx parsers none
            (record q { cursor = c })
            db
            own
            limit
            cur
            (conjunction (clauses ctx parsers q))
  unfolding visible answer_cursor
  scoped_answer c own limit cur sees = elim (Bool-cases (is_admin ctx)) [
    | inl admin ↦
        let e : some (λ n. true) ≡ some own = sym (if_true _ _ admin) ∙ sees in
        let e' : (λ n. true) ≡ own = cc in
        if_true _ _ admin
        ∙ ap
            (λ o.
              answer_built ctx parsers none (record q { cursor = c }) db o limit cur
                (conjunction (clauses ctx parsers q)))
            e'
    | inr plain ↦
        if_false _ _ plain ∙ owner_answer (owner_from_ctx ctx) (sym (if_false _ _ plain) ∙ sees)
  ]
    where
      owner_answer :
          (o : Option ℕ)
          → elim o [ none ↦ none | some owner ↦ some (λ n. owned_by owner n.created_by) ] ≡ some own
          → answer_owner ctx parsers none (record q { cursor = c }) db limit cur o
            ≡ answer_built ctx parsers none
                (record q { cursor = c })
                db
                own
                limit
                cur
                (conjunction (clauses ctx parsers q))
      owner_answer none h = cc
      owner_answer (some owner) h =
          let e : (λ n. owned_by owner n.created_by) ≡ own = cc in
          ap
            (λ o.
              answer_built ctx parsers none (record q { cursor = c }) db o limit cur
                (conjunction (clauses ctx parsers q)))
            e

  listed :
      (c : String) (cur : Cursor)
      → decode_cursor parsers c ≡ some cur
      → list ctx parsers none (record q { cursor = c }) db
        ≡ written 200 (page_of parsers a.limit (select_page p a.limit cur db))
  unfolding list answer_built answer_rows
  listed c cur e =
      rw (a.sized, e, list) (scoped_answer c a.own a.limit cur a.sees ∙ rw a.built_as refl)

  selected :
      (cur : Cursor)
      → select_page p a.limit cur db ≡ take (suc a.limit) (filter (after_cursor cur) sorted)
  unfolding select_page
  selected cur =
      let e : a.limit + 1 ≡ suc a.limit = omega arith in
      rw e
        (ap (take (suc a.limit)) (newest_first-filter (after_cursor cur) p db.notifications unique))

  -- One page where what is left fits in it, and one where it does not.
  page_last :
      (rest : List Notification)
      → length rest ≤ a.limit
      → page_of parsers a.limit (take (suc a.limit) rest)
        ≡ record { items = map scan_to_response rest; next_cursor = none; has_more = false }
  unfolding page_of
  page_last rest h =
      let fits : ltb a.limit (length rest) ≡ false = ground arith in
      rw (take_all (suc a.limit) rest (omega (arith, h))) (if_false _ _ fits)

  page_more :
      (k : ℕ) (rest : List Notification)
      → a.limit ≡ suc k
      → (h : suc k < length rest)
      → let t = cut k rest h in
        page_of parsers a.limit (take (suc a.limit) rest) ≡ record {
          items = map scan_to_response (t.front ++ t.last ∷ []);
          next_cursor = some (parsers.encode (sort_key t.last));
          has_more = true;
        }
  unfolding page_of
  page_more k rest e h =
      let t = cut k rest h in
      let len = length-take (suc (suc k)) rest h in
      let more : ltb (suc k) (length (take (suc (suc k)) rest)) ≡ true = ground arith in
      rw e (
        if_true _ _ more
        ∙ rw (take-take_suc (suc k) rest, t.page, last_of-append t.front t.last) refl)

  -- What is left to list at a cursor.
  record Left (cur : Cursor) (rest : List Notification) : Type 0 where
    pub before : List Notification
    pub whole : sorted ≡ before ++ rest
    pub behind : filter (after_cursor cur) sorted ≡ rest

  next-Left :
      (cur : Cursor) (front : List Notification) (last : Notification) (rest : List Notification)
      → Left cur (front ++ last ∷ rest)
      → Left (some (sort_key last)) rest
  unfolding after_cursor
  next-Left cur front last rest left =
      let e : sorted ≡ (left.before ++ front) ++ last ∷ rest =
        left.whole ∙ sym (append_assoc left.before front (last ∷ rest)) in
      let d : Desc ((left.before ++ front) ++ last ∷ rest) =
        rw (← e) (
          newest_first-Desc (filter p db.notifications)
            (Unique-filter p db.notifications unique)) in
      record {
        before = (left.before ++ front) ++ last ∷ [];
        whole = e ∙ sym (append_assoc (left.before ++ front) (last ∷ []) rest);
        behind =
            ap (filter (λ n. earlier (sort_key n) (sort_key last))) e
            ∙ filter_behind (left.before ++ front) last rest d;
      }

  survives :
      (cur : Cursor) (front : List Notification) (last : Notification) (rest : List Notification)
      → Left cur (front ++ last ∷ rest)
      → Survives parsers last
  survives cur front last rest left =
      let e : sorted ≡ (left.before ++ front) ++ last ∷ rest =
        left.whole ∙ sym (append_assoc left.before front (last ∷ rest)) in
      All-middle (Survives parsers) (left.before ++ front) last rest (
        rw (← e) (
          All-newest_first (Survives parsers) (filter p db.notifications)
            (All-filter (Survives parsers) p db.notifications roundtrip)))

  follow_step :
      (fuel : ℕ) (c : String) (r : ListResponse)
      → list ctx parsers none (record q { cursor = c }) db ≡ written 200 r
      → follow (suc fuel) ctx parsers (record q { cursor = c }) db
        ≡ r.items ++ (elim r.next_cursor [
          | none ↦ []
          | some c' ↦ follow fuel ctx parsers (record q { cursor = c' }) db
        ])
  unfolding follow
  follow_step fuel c r e = rw (e, follow) refl

  follow-Left :
      (fuel : ℕ) (c : String) (cur : Cursor) (rest : List Notification)
      → decode_cursor parsers c ≡ some cur
      → Left cur rest
      → length rest < fuel
      → follow fuel ctx parsers (record q { cursor = c }) db ≡ map scan_to_response rest
  follow-Left zero c cur rest e left h = let e : ⊥ = omega (arith, h) in elim e [ ]
  follow-Left (suc fuel) c cur rest e left h =
      let page : list ctx parsers none (record q { cursor = c }) db
          ≡ written 200 (page_of parsers a.limit (take (suc a.limit) rest)) =
        listed c cur e
        ∙ ap (λ ns. written 200 (page_of parsers a.limit ns))
            (selected cur ∙ ap (take (suc a.limit)) left.behind) in
      elim (Bool-cases (leb (length rest) a.limit)) [
        | inl fits ↦
            follow_step fuel c _ (page ∙ ap (written 200) (page_last rest (ground arith)))
            ∙ append-nil (map scan_to_response rest)
        | inr more ↦
            let k = positive a.limit (page_limit_bounds parsers q.limit a.limit a.sized).0 in
            let longer : suc k.0 < length rest = (let k' = k.1 in ground (arith, k')) in
            let t = cut k.0 rest longer in
            follow_step fuel c _ (page ∙ ap (written 200) (page_more k.0 rest k.1 longer))
            ∙ (ap (λ r. map scan_to_response (t.front ++ t.last ∷ []) ++ r)
                  (follow-Left fuel (parsers.encode (sort_key t.last)) (some (sort_key t.last))
                    t.rest (survives cur t.front t.last t.rest (rw (← t.whole) left))
                    (next-Left cur t.front t.last t.rest (rw (← t.whole) left))
                    (let s = t.shorter in omega (arith, h, s)))
                ∙ (sym (map-append scan_to_response (t.front ++ t.last ∷ []) t.rest)
                    ∙ ap (map scan_to_response)
                        (append_assoc t.front (t.last ∷ []) t.rest ∙ sym t.whole)))
      ]

  -- A client lists with parameters that are accepted, with queries that work, and follows the cursors
  -- from the start to the end, in a table that does not change and whose identifiers differ. Whatever
  -- the size of the pages, the pages put together are one list of rows, the newest first, in which
  -- each row of the table that the caller may see and asked for occurs once, and no other; no more
  -- pages are asked for than the table has rows, and one. A cursor at a
  -- row must survive its encoding.
  pub follow_whole_list :
      (fuel : ℕ)
      → length db.notifications < fuel
      → let rows = listing (λ n. a.own n && a.wanted n) db in
        (follow fuel ctx parsers (record q { cursor = "" }) db ≡ map scan_to_response rows)
        × Desc rows
        × Perm rows (filter (λ n. a.own n && a.wanted n) db.notifications)
  unfolding listing decode_cursor after_cursor
  follow_whole_list fuel h = (
    follow-Left fuel "" none sorted refl
        (record {
          before = [];
          whole = refl;
          behind = filter_true (after_cursor none) sorted (λ n. refl);
        })
        (let l = length-newest_first-le p db.notifications in omega (arith, h, l)),
    newest_first-Desc (filter p db.notifications) (Unique-filter p db.notifications unique),
    newest_first-perm (filter p db.notifications),
  )
