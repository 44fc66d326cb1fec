-- ===== src/Proxy/Cache/Freeing.antt =====
-- When `searchCache` of Lab31/main.c frees the data of an entry.
use os_posix.Prelude.{ℕ, zero, suc, ◌≡◌, refl, ◌∙◌, some, List, [], ◌∷◌, arith, get_elem?, set}
use os_posix.Proxy.Memory.{Bytes, done, fault, ◌>>=◌}
use os_posix.Proxy.Cache.{
  invalid, live, freed, Entry, Connection, find_url, refill, refilled, search_cache, modify,
  invalidated, make_cache_invalid,
}

-- An entry of the URL that the search finds stays the one, when its other fields change.
find_url-modify :
    (url : Bytes) (cache : List Entry) (j : ℕ) (f : Entry → Entry)
    → ((e : Entry) → (f e).url ≡ e.url)
    → find_url url (modify cache j f) ≡ find_url url cache
unfolding find_url
find_url-modify url [] j f same = refl
find_url-modify url (e ∷ es) zero f same = rw (same e) refl
find_url-modify url (e ∷ es) (suc j) f same = rw (find_url-modify url es j f same) refl

get_elem?-modify :
    (cache : List Entry) (j : ℕ) (f : Entry → Entry) (e : Entry)
    → get_elem? cache j ≡ some e
    → get_elem? (modify cache j f) j ≡ some (f e)
get_elem?-modify [] j f e at = absurd (cc)
get_elem?-modify (e' ∷ es) zero f e at = ground arith
get_elem?-modify (e' ∷ es) (suc j) f e at = get_elem?-modify es j f e at

find_url-set :
    (url : Bytes) (cache : List Entry) (j : ℕ) (e e' : Entry)
    → get_elem? cache j ≡ some e
    → e'.url ≡ e.url
    → find_url url (set cache j e') ≡ find_url url cache
unfolding find_url
find_url-set url [] j e e' at same = refl
find_url-set url (f ∷ es) zero e e' at same = ground arith
find_url-set url (f ∷ es) (suc j) e e' at same = rw (find_url-set url es j e e' at same) refl

get_elem?-set :
    (cache : List Entry) (j : ℕ) (e e' : Entry)
    → get_elem? cache j ≡ some e
    → get_elem? (set cache j e') j ≡ some e'
get_elem?-set [] j e e' at = absurd (cc)
get_elem?-set (f ∷ es) zero e e' at = refl
get_elem?-set (f ∷ es) (suc j) e e' at = get_elem?-set es j e e' at

module _ (url : Bytes) (c : Connection) (thread j : ℕ) (cache : List Entry) (e : Entry) where
  pub search_again :
      (bs : Bytes)
      → find_url url cache ≡ some j
      → get_elem? cache j ≡ some e
      → e.status ≡ invalid
      → e.block ≡ live bs
      → search_cache url c thread cache ≡ done (refill c thread j cache e freed)
  unfolding search_cache
  search_again bs hit at is block = rw (hit, at, is, block) refl

  pub search_freed :
      find_url url cache ≡ some j
      → get_elem? cache j ≡ some e
      → e.status ≡ invalid
      → e.block ≡ freed
      → search_cache url c thread cache ≡ fault
  unfolding search_cache
  search_freed hit at is block = rw (hit, at, is, block) refl

-- An entry with data that turns invalid, is searched for, turns invalid again and is searched for
-- again has its data freed twice, whatever else the cache holds.
pub double_free :
    (url : Bytes) (c : Connection) (thread j : ℕ) (cache : List Entry) (e : Entry) (bs : Bytes)
    → find_url url cache ≡ some j
    → get_elem? cache j ≡ some e
    → e.block ≡ live bs
    → (make_cache_invalid (some j) cache >>= λ cache1. search_cache url c thread cache1 >>= λ f.
        make_cache_invalid (some j) f.cache >>= λ cache2. search_cache url c thread cache2)
      ≡ fault
unfolding make_cache_invalid
double_free url c thread j cache e bs hit at block =
    let e1 = invalidated e in
    let e2 = refilled e1 thread freed in
    let cache1 = modify cache j invalidated in
    let cache2 = set cache1 j e2 in
    let hit1 = find_url-modify url cache j invalidated (λ x. refl) ∙ hit in
    let at1 = get_elem?-modify cache j invalidated e at in
    let hit2 =
      find_url-modify url cache2 j invalidated (λ x. refl)
      ∙ find_url-set url cache1 j e1 e2 at1 refl
      ∙ hit1 in
    let at2 = get_elem?-modify cache2 j invalidated e2 (get_elem?-set cache1 j e1 e2 at1) in
    rw (search_again url c thread j cache1 e1 bs hit1 at1 refl block) (
      search_freed url c thread j (modify cache2 j invalidated) (invalidated e2) hit2 at2 refl refl)
