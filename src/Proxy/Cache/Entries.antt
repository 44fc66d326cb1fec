-- ===== src/Proxy/Cache/Entries.antt =====
-- When an entry of the cache of Lab31/main.c is sound: its counters agree with its memory.
use os_posix.Prelude.{
  ℕ, zero, suc, ◌≤◌, ◌≡◌, ◌≢◌, refl, List, [], ◌∷◌, ◌++◌, length, get_elem?, set, Option, none,
  some, arith, inl, inr, Bool-cases, leb,
}
use os_posix.Proxy.Memory.{Bytes, Run, Returns}
use os_posix.Proxy.Cache.{
  Block, unset, live, freed, downloading, valid, invalid, Entry, EntryStatus, Connection, Found,
  modify, invalidated, new_entry, refilled, search_hit, search_miss, search_at, search_cache,
  find_url, on_entry, make_cache_invalid, max_cache_size,
}

-- Live memory holds what was written, within its size.
abbrev pub Filled : ℕ → ℕ → Block → Type 0
Filled size written unset = Unit
Filled size written freed = Unit
Filled size written (live bs) = (written ≡ length bs) × (length bs ≤ size)

-- All of the announced bytes are there.
abbrev pub Complete : ℕ → ℕ → Block → Type 0
Complete size written b =
    (bs : Bytes) × (b ≡ live bs) × (length bs ≡ size) × (written ≡ size) × (written ≢ 0)

pub record IsEntry (e : Entry) : Type 0 where
  pub filled : Filled e.all_size e.already_written e.block
  pub complete : e.status ≡ valid → Complete e.all_size e.already_written e.block

abbrev pub AreEntries : List Entry → Type 0
AreEntries [] = Unit
AreEntries (e ∷ es) = IsEntry e × AreEntries es

pub AreEntries-at :
    (es : List Entry) (j : ℕ) (e : Entry) → AreEntries es → get_elem? es j ≡ some e → IsEntry e
AreEntries-at [] j e h at = absurd (cc)
AreEntries-at (f ∷ es) zero e h at = ground (arith, h.0)
AreEntries-at (f ∷ es) (suc j) e h at = AreEntries-at es j e h.1 at

pub AreEntries-set :
    (es : List Entry) (j : ℕ) (e : Entry) → AreEntries es → IsEntry e → AreEntries (set es j e)
AreEntries-set [] j e h new = tt
AreEntries-set (f ∷ es) zero e h new = (new, h.1)
AreEntries-set (f ∷ es) (suc j) e h new = (h.0, AreEntries-set es j e h.1 new)

pub AreEntries-modify :
    (es : List Entry) (j : ℕ) (f : Entry → Entry)
    → AreEntries es
    → ((e : Entry) → IsEntry e → IsEntry (f e))
    → AreEntries (modify es j f)
AreEntries-modify [] j f h new = tt
AreEntries-modify (e ∷ es) zero f h new = (new e h.0, h.1)
AreEntries-modify (e ∷ es) (suc j) f h new = (h.0, AreEntries-modify es j f h.1 new)

pub AreEntries-append :
    (es : List Entry) (e : Entry) → AreEntries es → IsEntry e → AreEntries (es ++ e ∷ [])
AreEntries-append [] e h new = (new, tt)
AreEntries-append (f ∷ es) e h new = (h.0, AreEntries-append es e h.1 new)

pub invalidated-IsEntry : (e : Entry) → IsEntry e → IsEntry (invalidated e)
invalidated-IsEntry e h = record { filled = h.filled; complete = λ x. absurd (cc) }

new_entry-IsEntry : (url : Bytes) (thread : ℕ) → IsEntry (new_entry url thread)
new_entry-IsEntry url thread = record { filled = tt; complete = λ x. absurd (cc) }

abbrev AreKept : Run Found → Type 0
AreKept = Returns (λ f. AreEntries f.cache)

refilled-Kept :
    (c : Connection) (thread j : ℕ) (cache : List Entry) (e : Entry) (b : Block)
    → AreEntries cache
    → AreKept (search_hit c thread j cache (record e { block = b }) invalid)
refilled-Kept c thread j cache e unset h =
    AreEntries-set cache j (refilled e thread unset) h
      (record { filled = tt; complete = λ x. absurd (cc) })
refilled-Kept c thread j cache e (live bs) h =
    AreEntries-set cache j (refilled e thread freed) h
      (record { filled = tt; complete = λ x. absurd (cc) })
refilled-Kept c thread j cache e freed h = tt

hit-Kept :
    (c : Connection) (thread j : ℕ) (cache : List Entry) (e : Entry) (s : EntryStatus)
    → AreEntries cache
    → AreKept (search_hit c thread j cache e s)
hit-Kept c thread j cache e downloading h = h
hit-Kept c thread j cache e valid h = h
hit-Kept c thread j cache e invalid h = refilled-Kept c thread j cache e e.block h

pub on_entry-Returns {ℓ} :
    {A : Type 0} (P : A → Type ℓ) (cache : List Entry) (j : ℕ) (k : Entry → Run A)
    → ((e : Entry) → get_elem? cache j ≡ some e → Returns P (k e))
    → Returns P (on_entry (get_elem? cache j) k)
on_entry-Returns P [] j k h = tt
on_entry-Returns P (e ∷ es) zero k h = h e refl
on_entry-Returns P (e ∷ es) (suc j) k h = on_entry-Returns P es j k h

miss-Kept :
    (url : Bytes) (c : Connection) (thread : ℕ) (cache : List Entry)
    → AreEntries cache
    → AreEntries (search_miss url c thread cache).cache
miss-Kept url c thread cache h = elim (Bool-cases (leb max_cache_size (length cache))) [
  | inl full ↦ rw full h
  | inr room ↦
      rw room (AreEntries-append cache (new_entry url thread) h (new_entry-IsEntry url thread))
]

pub search_at-Kept :
    (url : Bytes) (c : Connection) (thread : ℕ) (cache : List Entry) (found : Option ℕ)
    → AreEntries cache
    → AreKept (search_at url c thread cache found)
search_at-Kept url c thread cache none h = miss-Kept url c thread cache h
search_at-Kept url c thread cache (some j) h =
    on_entry-Returns (λ f. AreEntries f.cache) cache j (λ e. search_hit c thread j cache e e.status)
      (λ e at. hit-Kept c thread j cache e e.status h)

pub search_cache-AreEntries :
    (url : Bytes) (c : Connection) (thread : ℕ) (cache : List Entry)
    → AreEntries cache
    → Returns (λ f. AreEntries f.cache) (search_cache url c thread cache)
unfolding search_cache
search_cache-AreEntries url c thread cache h =
    search_at-Kept url c thread cache (find_url url cache) h

pub make_cache_invalid-AreEntries :
    (j : Option ℕ) (cache : List Entry)
    → AreEntries cache
    → Returns AreEntries (make_cache_invalid j cache)
unfolding make_cache_invalid
make_cache_invalid-AreEntries none cache h = tt
make_cache_invalid-AreEntries (some j) cache h =
    AreEntries-modify cache j invalidated h invalidated-IsEntry
