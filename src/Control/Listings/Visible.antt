-- ===== src/Control/Listings/Visible.antt =====
-- A listing of session_service.rs shows what the user may see, and all of it.
use telepair.Base.{
  ℕ, zero, suc, ◌≡◌, refl, Bool, ◌&&◌, true, false, Option, none, some, List, [], ◌∷◌,
  if◌then◌else◌, ◌==◌, arith, All, Option-cases, inl, inr,
}
use telepair.Base.Rows.{find, select_where, count_where, find_holds}
use telepair.Core.Records.{Session, User, SessionListFilter}
use telepair.Storage.{Database}
use telepair.Storage.Sessions.{get_session, session_is}
use telepair.Storage.Listings.{
  passes, concerns, insert_newest, newest_first, skip, at_most, page, list_sessions_for_user,
  list_all_sessions, limited, status_is, target_name_is,
}
use telepair.Control.Listings.{list_sessions_visible_to, listing_for, scoped_listing}

-- Whose sessions a user is shown.
abbrev pub in_scope : User → Option ℕ → Database → Session → Bool
in_scope user (some scope) db s = s.id == scope
in_scope user none db s = concerns user.id db s

abbrev pub may_see : User → Database → Session → Bool
may_see user db s = if user.is_admin then true else in_scope user user.scoped_session_id db s

module _ {κ} (P : Session → Type κ) where
  All-select_where :
      (p : Session → Bool) (ss : List Session)
      → ((s : Session) → p s ≡ true → P s)
      → All P (select_where p ss)
  unfolding select_where
  All-select_where p [] keep = tt
  All-select_where p (s ∷ ss) keep = ground (arith, keep s, All-select_where p ss keep)

  All-insert_newest :
      (s : Session) (ss : List Session) → P s → All P ss → All P (insert_newest s ss)
  unfolding insert_newest
  All-insert_newest s [] h all = (h, tt)
  All-insert_newest s (r ∷ rs) h all = ground (arith, All-insert_newest s rs h all.1)

  All-newest_first : (ss : List Session) → All P ss → All P (newest_first ss)
  unfolding newest_first
  All-newest_first [] all = tt
  All-newest_first (s ∷ ss) all =
      All-insert_newest s (newest_first ss) all.0 (All-newest_first ss all.1)

  All-skip : (n : ℕ) (ss : List Session) → All P ss → All P (skip n ss)
  unfolding skip
  All-skip zero ss all = all
  All-skip (suc n) [] all = tt
  All-skip (suc n) (s ∷ ss) all = All-skip n ss all.1

  All-at_most : (n : ℕ) (ss : List Session) → All P ss → All P (at_most n ss)
  unfolding at_most
  All-at_most zero ss all = tt
  All-at_most (suc n) [] all = tt
  All-at_most (suc n) (s ∷ ss) all = (all.0, All-at_most n ss all.1)

  All-limited : (o : Option ℕ) (ss : List Session) → All P ss → All P (limited o ss)
  All-limited none ss all = all
  All-limited (some n) ss all = All-at_most n ss all

  All-page : (filter : SessionListFilter) (ss : List Session) → All P ss → All P (page filter ss)
  unfolding page
  All-page filter ss all =
      All-limited filter.limit _ (All-skip filter.offset _ (All-newest_first ss all))

  All-if :
      (b : Bool) (xs ys : List Session)
      → (b ≡ true → All P xs)
      → (b ≡ false → All P ys)
      → All P (if b then xs else ys)
  All-if true xs ys yes_case no_case = yes_case refl
  All-if false xs ys yes_case no_case = no_case refl

-- The sessions that meet a test are neither lost nor doubled by the sorting.
count-insert_newest :
    (p : Session → Bool) (s : Session) (ss : List Session)
    → count_where p (insert_newest s ss) ≡ count_where p (s ∷ ss)
unfolding count_where insert_newest
count-insert_newest p s [] = refl
count-insert_newest p s (r ∷ rs) = ground (arith, count-insert_newest p s rs)

count-newest_first :
    (p : Session → Bool) (ss : List Session) → count_where p (newest_first ss) ≡ count_where p ss
unfolding newest_first count_where
count-newest_first p [] = refl
count-newest_first p (s ∷ ss) =
    ground (arith, count-insert_newest p s (newest_first ss), count-newest_first p ss)

count-select_where :
    (p q : Session → Bool) (ss : List Session)
    → count_where p (select_where q ss) ≡ count_where (λ s. q s && p s) ss
unfolding count_where select_where
count-select_where p q [] = refl
count-select_where p q (s ∷ ss) = ground (arith, count-select_where p q ss)

module _ (user : User) (filter : SessionListFilter) (db : Database) where
  abbrev pub Shown : Session → Type 0
  Shown s = (may_see user db s ≡ true) × (passes filter s ≡ true)

  scoped_listing-Shown :
      (scope : ℕ)
      → user.is_admin ≡ false
      → user.scoped_session_id ≡ some scope
      → All Shown (scoped_listing filter (get_session scope db))
  unfolding get_session passes
  scoped_listing-Shown scope plain scoped =
      elim (Option-cases (find (session_is scope) db.sessions)) [
        | inl gone ↦ rw gone tt
        | inr (s, found) ↦
            let same = find_holds (session_is scope) db.sessions s found in
            rw found (
              All-if Shown (status_is filter.status s) _ _
                (λ right.
                  All-if Shown (target_name_is filter.target_name s) _ _
                    (λ here. (ground arith, tt)) (λ other. tt))
                (λ wrong. tt))
      ]

  listing_for-Shown :
      (scope : Option ℕ)
      → user.is_admin ≡ false
      → user.scoped_session_id ≡ scope
      → All Shown (listing_for user scope filter db)
  unfolding list_sessions_for_user
  listing_for-Shown (some scope) plain scoped = scoped_listing-Shown scope plain scoped
  listing_for-Shown none plain scoped =
      All-page Shown filter _ (All-select_where Shown _ db.sessions (λ s h. ground arith))

  listing-Shown : All Shown (list_sessions_visible_to user filter db)
  unfolding list_sessions_visible_to list_all_sessions
  listing-Shown =
      All-if Shown user.is_admin _ _
        (λ admin.
          All-page Shown filter _ (All-select_where Shown _ db.sessions (λ s h. ground arith)))
        (λ plain. listing_for-Shown user.scoped_session_id plain refl)

  page-whole :
      (ss : List Session) (p : Session → Bool)
      → filter.limit ≡ none
      → filter.offset ≡ 0
      → count_where p (page filter ss) ≡ count_where p ss
  unfolding page skip
  page-whole ss p whole start = ground (arith, whole, start, count-newest_first p ss)

  -- A user is shown only sessions that pass the filter, and of these an administrator any, a guest
  -- the one that they were invited to, and others those that they own or have ever taken part in.
  -- Without a limit and an offset nothing is left out or shown twice: among the sessions listed, as
  -- many meet any test as among all that an administrator, or a user who is no guest, may be shown.
  pub listing_exact :
      All Shown (list_sessions_visible_to user filter db)
      × (filter.limit ≡ none
          → filter.offset ≡ 0
          → user.is_admin ≡ true
          → (p : Session → Bool)
          → count_where p (list_sessions_visible_to user filter db)
            ≡ count_where (λ s. passes filter s && p s) db.sessions)
      × (filter.limit ≡ none
          → filter.offset ≡ 0
          → user.is_admin ≡ false
          → user.scoped_session_id ≡ none
          → (p : Session → Bool)
          → count_where p (list_sessions_visible_to user filter db)
            ≡ count_where (λ s. concerns user.id db s && passes filter s && p s) db.sessions)
  unfolding list_sessions_visible_to list_all_sessions list_sessions_for_user
  listing_exact = (
    listing-Shown,
    λ whole start admin p.
        let mine = passes filter in
        ground (
          arith,
          page-whole (select_where mine db.sessions) p whole start,
          count-select_where p mine db.sessions,
        ),
    λ whole start plain unscoped p.
        let mine = (λ (s : Session). concerns user.id db s && passes filter s) in
        ground (
          arith,
          page-whole (select_where mine db.sessions) p whole start,
          count-select_where p mine db.sessions,
        ),
  )
