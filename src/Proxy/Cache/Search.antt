-- ===== src/Proxy/Cache/Search.antt =====
-- What `searchCache` of Lab31 keeps and finds.
use os_posix.Prelude.{
  ℕ, zero, suc, ◌+◌, ◌≤◌, ◌<◌, ◌≡◌, ◌≢◌, refl, inl, inr, true, false, none, some, List, [], ◌∷◌,
  ◌++◌, arith, Bool-cases, Option-cases, leb, length, length-append, length-set, get_elem?, set,
}
use os_posix.Proxy.Memory.{Bytes, Run, done}
use os_posix.Proxy.Cache.{
  max_cache_size, EntryStatus, downloading, valid, invalid, Block, unset, live, freed, Entry,
  Connection, responding_from_cache, find_url, new_entry, Found, refill, refilled, search_hit,
  search_miss, search_cache,
}
use os_posix.Proxy.Cache.Urls.{
  Distinct, Distinct-append, find_url-none, find_url-some, urls, urls-append, urls-set,
}

-- The entries have distinct URLs, and there is room for them in the array.
pub record IsCache (cache : List Entry) : Type 0 where
  pub distinct : Distinct (urls cache)
  pub bounded : length cache ≤ max_cache_size

-- An entry that the searching thread is to fill.
pub record IsFilling (wanted : Bytes) (thread : ℕ) (e : Entry) : Type 0 where
  pub url : e.url ≡ wanted
  pub status : e.status ≡ downloading
  pub written : e.already_written ≡ 0
  pub size : e.all_size ≡ 0
  pub writer : e.writer_id ≡ some thread

-- The connection is to be served from an entry that has the URL and is not invalid; or it fills
-- one; or it goes without a cache, since the array is full.
pub data Outcome (url : Bytes) (thread : ℕ) (cache : List Entry) (f : Found) : Type 0 where
  serves :
      (j : ℕ) (e : Entry)
      → f.found ≡ true
      → f.connection.status ≡ responding_from_cache
      → f.connection.cache_bytes_written ≡ 0
      → f.connection.cache_index ≡ some j
      → f.cache ≡ cache
      → get_elem? cache j ≡ some e
      → e.url ≡ url
      → e.status ≢ invalid
      → Outcome url thread cache f
  fills :
      (j : ℕ) (e : Entry)
      → f.found ≡ false
      → f.connection.cache_index ≡ some j
      → get_elem? f.cache j ≡ some e
      → IsFilling url thread e
      → Outcome url thread cache f
  bypasses :
      f.found ≡ false
      → f.connection.cache_index ≡ none
      → f.cache ≡ cache
      → max_cache_size ≤ length cache
      → Outcome url thread cache f

get_elem?-append : (es : List Entry) (e : Entry) → get_elem? (es ++ e ∷ []) (length es) ≡ some e
get_elem?-append [] e = refl
get_elem?-append (f ∷ es) e = get_elem?-append es e

get_elem?-set_self :
    (es : List Entry) (j : ℕ) (e : Entry) → j < length es → get_elem? (set es j e) j ≡ some e
get_elem?-set_self [] j e h = elim h [ ]
get_elem?-set_self (f ∷ es) zero e h = refl
get_elem?-set_self (f ∷ es) (suc j) e h = get_elem?-set_self es j e (omega arith)

room_left : (n : ℕ) → leb max_cache_size n ≡ false → n + 1 ≤ max_cache_size
room_left n h = ground arith

no_room : (n : ℕ) → leb max_cache_size n ≡ true → max_cache_size ≤ n
no_room n h = ground arith

module _ (url : Bytes) (c : Connection) (thread : ℕ) (cache : List Entry) (v : IsCache cache) where
  abbrev Good : Run Found → Type 0
  Good r = (f : Found) × (r ≡ done f) × IsCache f.cache × Outcome url thread cache f

  search_miss-Good : find_url url cache ≡ none → Good (done (search_miss url c thread cache))
  search_miss-Good out = elim (Bool-cases (leb max_cache_size (length cache))) [
    | inl full ↦ rw full (_, refl, v, bypasses refl refl refl (no_room (length cache) full))
    | inr room ↦
        let e = new_entry url thread in
        let counted = length-append cache (e ∷ []) in
        rw room (
          _,
          refl,
          record {
            distinct =
                rw (urls-append cache e)
                  (Distinct-append url (urls cache) v.distinct (find_url-none url cache out));
            bounded = omega (arith, counted, room_left (length cache) room);
          },
          fills (length cache) e refl refl (get_elem?-append cache e)
              (record { url = refl; status = refl; written = refl; size = refl; writer = refl }),
        )
  ]

  refill-Good :
      (j : ℕ) (e : Entry) (b : Block)
      → get_elem? cache j ≡ some e
      → j < length cache
      → e.url ≡ url
      → Good (done (refill c thread j cache e b))
  refill-Good j e b at lt same = (
    _,
    refl,
    record {
      distinct = rw (urls-set cache j e (refilled e thread b) at refl) v.distinct;
      bounded = omega (arith, length-set cache j (refilled e thread b), v.bounded);
    },
    fills j (refilled e thread b) refl refl (get_elem?-set_self cache j _ lt)
        (record { url = same; status = refl; written = refl; size = refl; writer = refl }),
  )

  search_hit-Good :
      (j : ℕ) (e : Entry) (s : EntryStatus) (b : Block)
      → get_elem? cache j ≡ some e
      → j < length cache
      → e.url ≡ url
      → e.status ≡ s
      → e.block ≡ b
      → (s ≡ invalid → b ≢ freed)
      → Good (search_hit c thread j cache e s)
  search_hit-Good j e downloading b at lt same is block ok =
      (_, refl, v, serves j e refl refl refl refl refl at same (λ x. ground arith))
  search_hit-Good j e valid b at lt same is block ok =
      (_, refl, v, serves j e refl refl refl refl refl at same (λ x. ground arith))
  search_hit-Good j e invalid freed at lt same is block ok = absurd (ok refl refl)
  search_hit-Good j e invalid unset at lt same is block ok =
      rw block (refill-Good j e unset at lt same)
  search_hit-Good j e invalid (live bs) at lt same is block ok =
      rw block (refill-Good j e freed at lt same)

-- Unless the entry with the URL is invalid and its data was already given back, `searchCache`
-- returns; the URLs stay distinct and within the array, and the connection is served from an
-- entry with the URL, or fills one, or goes without since the array is full.
pub search_cache_lem :
    (url : Bytes) (c : Connection) (thread : ℕ) (cache : List Entry)
    → IsCache cache
    → ((j : ℕ) (e : Entry) → get_elem? cache j ≡ some e → e.status ≡ invalid → e.block ≢ freed)
    → (f : Found) × (search_cache url c thread cache ≡ done f)
      × IsCache f.cache
      × Outcome url thread cache f
unfolding search_cache
search_cache_lem url c thread cache v ok = elim (Option-cases (find_url url cache)) [
  | inl out ↦ rw out (search_miss-Good url c thread cache v out)
  | inr (j, hit) ↦
      let (e, at, same, lt) = find_url-some url cache j hit in
      rw (hit, at)
        (search_hit-Good url c thread cache v j e e.status e.block at lt same refl refl (ok j e at))
]
