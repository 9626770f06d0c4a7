-- ===== src/Imap/Newest.antt =====
-- `ListMessages` lists the newest messages, the newest first.
use mailservice.Prelude.{
  ℕ, zero, suc, ◌+◌, ◌-◌, ◌≤◌, ◌<◌, ◌≡◌, refl, ◌⊎◌, ltb→lt, Bool, false, List, [], ◌∷◌, map,
  reverse, arith, Bool-cases, inl, inr, ltb, length, drop, sort_by, sort_by-Perm, IsSortedBy,
}
use mathlib.Core.List.{Perm, reverse_aux}
use mathlib.Core.List.Perm
use mailservice.Ports.{ok}
use mailservice.Repository.Query.{All, Among, here, there, count_rows}
use mailservice.Repository.Query.Laws.{All-map, All-map2, All-Among}
use mailservice.Repository.Query.Sorted.{
  count_rows-sort_by, length-sort_by, All-sort_by, head-least, sort_by_measure-IsSortedBy,
  IsSortedBy-tail,
}
use mailservice.Imap.Entries.{AreEntries, entries-AreEntries, reverse-Perm}
use mailservice.Imap.{
  Client, ImapEntry, FetchedMessage, entry_of, uid_before, newest_uids, fetch_by_uids, list_inbox,
}

abbrev newer_in : List ℕ → ℕ → ℕ
newer_in uids u = count_rows (λ y. ltb u y) uids

All-drop : {A : Type 0} (P : A → Type 0) (k : ℕ) (xs : List A) → All P xs → All P (drop k xs)
All-drop P zero xs h = h
All-drop P (suc k) [] h = tt
All-drop P (suc k) (x ∷ xs) h = All-drop P k xs h.1

itself : (x : ℕ) → ltb x x ≡ false
itself x = ground arith

count_rows-le : (p : ℕ → Bool) (xs : List ℕ) → count_rows p xs ≤ length xs
unfolding count_rows
count_rows-le p [] = omega arith
count_rows-le p (x ∷ xs) = ground (arith, count_rows-le p xs)

-- Behind the first `k` of a sorted list stand the elements with few others above them.
few_newer :
    (k : ℕ) (xs : List ℕ)
    → IsSortedBy (λ a b. ltb a b) xs
    → All (λ u. newer_in xs u < length (drop k xs)) (drop k xs)
unfolding count_rows
few_newer zero [] s = tt
few_newer (suc k) [] s = tt
few_newer zero (x ∷ xs) s = (
  ground (arith, count_rows-le (ltb x) xs, itself x),
  All-map2 (λ u. x ≤ u) (λ u. newer_in xs u < length xs)
      (λ u. newer_in (x ∷ xs) u < length (x ∷ xs)) xs (λ u low few. ground (arith, few))
      (head-least (λ n. n) x xs s) (few_newer zero xs (IsSortedBy-tail (λ a b. ltb a b) x xs s)),
)
few_newer (suc k) (x ∷ xs) s =
    All-map2 (λ u. x ≤ u) (λ u. newer_in xs u < length (drop k xs))
      (λ u. newer_in (x ∷ xs) u < length (drop k xs)) (drop k xs) (λ u low few. ground (arith, few))
      (All-drop (λ u. x ≤ u) k xs (head-least (λ n. n) x xs s))
      (few_newer k xs (IsSortedBy-tail (λ a b. ltb a b) x xs s))

length-drop : (k : ℕ) (xs : List ℕ) → k ≤ length xs → length (drop k xs) + k ≡ length xs
length-drop zero xs h = omega arith
length-drop (suc k) [] h = absurd (omega (arith, h))
length-drop (suc k) (x ∷ xs) h = omega (arith, length-drop k xs (omega (arith, h)))

-- What the identifiers that are fetched have in common
abbrev pub IsNewest : ℕ → List ℕ → ℕ → Type 0
IsNewest limit uids u = Among u uids × (newer_in uids u < limit)

Among-self : (xs : List ℕ) → All (λ u. Among u xs) xs
Among-self [] = tt
Among-self (x ∷ xs) =
    (here, All-map (λ u. Among u xs) (λ u. Among u (x ∷ xs)) xs (λ u m. there m) (Among-self xs))

module _ (limit : ℕ) (uids : List ℕ) where
  sorted_uids : List ℕ
  sorted_uids = sort_by (λ a b. ltb a b) uids

  IsNewest-drop :
      (k : ℕ) → length (drop k sorted_uids) ≤ limit → All (IsNewest limit uids) (drop k sorted_uids)
  unfolding sorted_uids
  IsNewest-drop k short =
      All-map2 (λ u. Among u uids) (λ u. newer_in sorted_uids u < length (drop k sorted_uids))
        (IsNewest limit uids) (drop k sorted_uids)
        (λ u m few.
          (m, omega (arith, few, short, count_rows-sort_by (λ a b. ltb a b) (λ y. ltb u y) uids)))
        (All-drop (λ u. Among u uids) k sorted_uids
          (All-sort_by (λ a b. ltb a b) (λ u. Among u uids) uids (Among-self uids)))
        (few_newer k sorted_uids (sort_by_measure-IsSortedBy (λ n. n) uids))

  newest_uids-IsNewest :
      All (IsNewest limit uids) (newest_uids limit uids)
      × (length (newest_uids limit uids) ≤ limit)
      × (length uids ≤ length (newest_uids limit uids) ⊎ (length (newest_uids limit uids) ≡ limit))
  unfolding newest_uids sorted_uids
  newest_uids-IsNewest = elim (Bool-cases (ltb limit (length sorted_uids))) [
    | inl more ↦
        let k = length sorted_uids - limit in
        let size : length (drop k sorted_uids) ≡ limit = omega (
          arith,
          length-drop k sorted_uids (omega arith),
          ltb→lt limit (length sorted_uids) more,
        ) in
        simp more (IsNewest-drop k (omega (arith, size)), omega (arith, size), inr size)
    | inr few ↦
        let short : length sorted_uids ≤ limit = ground (arith, few) in
        simp few
          (IsNewest-drop 0 short, short, inl (omega (arith, length-sort_by (λ a b. ltb a b) uids)))
  ]

abbrev pub newest_first : ImapEntry → ImapEntry → Bool
newest_first a b = ltb b.uid a.uid

turned :
    (xs acc : List ImapEntry)
    → IsSortedBy uid_before xs
    → IsSortedBy newest_first acc
    → All (λ (a : ImapEntry). All (λ (x : ImapEntry). a.uid ≤ x.uid) xs) acc
    → IsSortedBy newest_first (reverse_aux xs acc)
turned [] acc up down above = down
turned (x ∷ xs) [] up down above =
    turned xs (x ∷ []) (IsSortedBy-tail uid_before x xs up) tt
      (head-least (λ (m : ImapEntry). m.uid) x xs up, tt)
turned (x ∷ xs) (a ∷ acc) up down above =
    turned xs (x ∷ a ∷ acc) (IsSortedBy-tail uid_before x xs up) (ground (arith, above.0.0), down)
      (
        head-least (λ (m : ImapEntry). m.uid) x xs up,
        All-map (λ (b : ImapEntry). All (λ (y : ImapEntry). b.uid ≤ y.uid) (x ∷ xs))
            (λ (b : ImapEntry). All (λ (y : ImapEntry). b.uid ≤ y.uid) xs) (a ∷ acc) (λ b h. h.1)
            above,
      )

All-reverse_aux :
    (P : ImapEntry → Type 0) (xs acc : List ImapEntry)
    → All P xs
    → All P acc
    → All P (reverse_aux xs acc)
All-reverse_aux P [] acc h k = k
All-reverse_aux P (x ∷ xs) acc h k = All-reverse_aux P xs (x ∷ acc) h.1 (h.0, k)

length-reverse_aux :
    (xs acc : List ImapEntry) → length (reverse_aux xs acc) ≡ length xs + length acc
length-reverse_aux [] acc = omega arith
length-reverse_aux (x ∷ xs) acc = omega (arith, length-reverse_aux xs (x ∷ acc))

All-entries :
    (P : ℕ → Type 0) (include_body : Bool) (ms : List FetchedMessage)
    → All (λ (m : FetchedMessage). P m.uid) ms
    → All (λ (m : ImapEntry). P m.uid) (map (entry_of include_body) ms)
unfolding entry_of
All-entries P include_body [] h = tt
All-entries P include_body (m ∷ ms) h = (h.0, All-entries P include_body ms h.1)

length-entries :
    (include_body : Bool) (ms : List FetchedMessage)
    → length (map (entry_of include_body) ms) ≡ length ms
length-entries include_body [] = refl
length-entries include_body (m ∷ ms) = omega (arith, length-entries include_body ms)

-- A list of messages of the inbox: newest first, no more than the limit, each of them among the
-- found identifiers, with less than `limit` newer ones
abbrev pub IsListing : ℕ → List ℕ → List ImapEntry → Type 0
IsListing limit uids r =
    IsSortedBy newest_first r
    × (length r ≤ limit)
    × All (λ (m : ImapEntry). IsNewest limit uids m.uid) r

no_entries :
    (include_body : Bool) (ms : List FetchedMessage)
    → length ms ≤ 0
    → ok [] ≡ ok (sort_by uid_before (map (entry_of include_body) ms))
unfolding sort_by
no_entries include_body [] h = refl
no_entries include_body (m ∷ ms) h = absurd (omega (arith, h))

module _ (c : Client) (limit : ℕ) (unread_only include_body : Bool) (uids : List ℕ)
    (messages : List FetchedMessage) where
  fetched :
      (us : List ℕ)
      → c.uid_fetch us include_body ≡ ok messages
      → length messages ≤ length us
      → All (λ (m : FetchedMessage). Among m.uid us) messages
      → fetch_by_uids c us include_body
        ≡ ok (sort_by uid_before (map (entry_of include_body) messages))
  unfolding fetch_by_uids
  fetched [] answer size asked = no_entries include_body messages size
  fetched (u ∷ us) answer size asked = rw answer refl

  -- When the inbox opens, the search finds `uids`, and the fetch of the identifiers that the code
  -- asks for gives messages of these, at most one for each, `ListMessages` returns one entry for
  -- each of these messages, with its identifier, date, subject and sender, and its trimmed text if
  -- it is asked for: the newest first, at most `limit`, each one found by the search and with less
  -- than `limit` newer ones there.
  pub list_inbox-IsListing :
      c.select_inbox ≡ ok tt
      → c.uid_search unread_only ≡ ok uids
      → c.uid_fetch (newest_uids limit uids) include_body ≡ ok messages
      → length messages ≤ length (newest_uids limit uids)
      → All (λ (m : FetchedMessage). Among m.uid (newest_uids limit uids)) messages
      → (r : List ImapEntry) × (list_inbox c limit unread_only include_body ≡ ok r)
        × IsListing limit uids r
        × (entries : List ImapEntry) × AreEntries include_body messages entries
        × Perm r entries
  unfolding list_inbox
  list_inbox-IsListing opened searched answer size asked =
      let (newest, short, full) = newest_uids-IsNewest limit uids in
      let entries = map (entry_of include_body) messages in
      let sorted = sort_by uid_before entries in
      let count : length (reverse sorted) ≡ length messages = omega (
        arith,
        length-reverse_aux sorted [],
        length-sort_by uid_before entries,
        length-entries include_body messages,
      ) in
      (
        reverse sorted,
        simp (opened, searched, fetched (newest_uids limit uids) answer size asked) refl,
        (
          turned sorted [] (sort_by_measure-IsSortedBy (λ (m : ImapEntry). m.uid) entries) tt tt,
          omega (arith, count, size, short),
          All-reverse_aux (λ (m : ImapEntry). IsNewest limit uids m.uid) sorted []
              (All-sort_by uid_before (λ (m : ImapEntry). IsNewest limit uids m.uid) entries
                (All-entries (IsNewest limit uids) include_body messages (
                  All-map (λ (m : FetchedMessage). Among m.uid (newest_uids limit uids))
                    (λ (m : FetchedMessage). IsNewest limit uids m.uid) messages
                    (λ m h. All-Among (IsNewest limit uids) m.uid (newest_uids limit uids) newest h)
                    asked)))
              tt,
        ),
        entries,
        entries-AreEntries include_body messages,
        Perm.trans (reverse-Perm sorted) (sort_by-Perm uid_before entries),
      )
