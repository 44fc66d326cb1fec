-- ===== src/Proxy/Cache.antt =====
-- The cache of Lab31/main.c. The list holds the first `cacheSize` entries of the array; the others
-- are never read. The functions run as in one thread: the source takes no lock for `cacheSize`.
pub mod Entries
pub mod Freeing
pub mod Search
pub mod Urls
use os_posix.Prelude.{
  ℕ, zero, suc, ◌+◌, ◌*◌, ◌≡◌, Bool, true, false, ◌&&◌, Option, none, some, List, [], ◌∷◌, ◌++◌,
  leb, ◌==◌, if◌then◌else◌, length, get_elem?, set,
}
use os_posix.Proxy.Memory.{Bytes, Run, done, fault, ◌>>=◌}

abbrev pub max_cache_size : ℕ
max_cache_size = 1024

abbrev pub max_cache_entry_size : ℕ
max_cache_entry_size = 101 * 1048576

pub data EntryStatus : Type 0 where
  downloading valid invalid : EntryStatus

-- The pointer `data`: null, to memory, or to memory that was given back.
pub data Block : Type 0 where
  unset : Block
  live : Bytes → Block
  freed : Block

-- `writer_id` is `none` for -1.
pub record Entry : Type 0 where
  pub all_size : ℕ
  pub already_written : ℕ
  pub writer_id : Option ℕ
  pub url : Bytes
  pub block : Block
  pub status : EntryStatus

pub data Status : Type 0 where
  getting_request connecting_to_server writing_request forwarding_request forwarding_response
        responding_from_cache not_active waiting_data_on_cache :
      Status

-- A socket or an index is `none` for -1. `buffer` holds the first `buffer_size` bytes.
pub record Connection : Type 0 where
  pub client_socket : Option ℕ
  pub server_socket : Option ℕ
  pub status : Status
  pub buffer : Bytes
  pub cache_index : Option ℕ
  pub cache_bytes_written : ℕ
  pub id : ℕ

-- `strcmp(s, t) == 0`
abbrev pub same_text : Bytes → Bytes → Bool
same_text [] [] = true
same_text (a ∷ s) (b ∷ t) = (a == b) && same_text s t
same_text _ _ = false

abbrev pub next_index : Option ℕ → Option ℕ
next_index none = none
next_index (some j) = some (suc j)

-- Where the loop over the entries stops.
unfoldable pub find_url : Bytes → List Entry → Option ℕ
find_url url [] = none
find_url url (e ∷ es) =
    let rest = next_index (find_url url es) in if same_text e.url url then some 0 else rest

-- `free(data)`, which leaves the pointer as it is.
abbrev pub free_block : Block → Run Block
free_block unset = done unset
free_block (live bs) = done freed
free_block freed = fault

abbrev pub free_buffer : Connection → Connection
free_buffer c = record c { buffer = [] }

abbrev pub respond_from : ℕ → Connection → Connection
respond_from j c = record (free_buffer c) {
  cache_index = some j;
  cache_bytes_written = 0;
  status = responding_from_cache;
}

abbrev pub new_entry : Bytes → ℕ → Entry
new_entry url thread = record {
  all_size = 0;
  already_written = 0;
  writer_id = some thread;
  url = url;
  block = unset;
  status = downloading;
}

pub record Found : Type 0 where
  pub found : Bool
  pub connection : Connection
  pub cache : List Entry

abbrev pub on_entry : {A : Type 0} → Option Entry → (Entry → Run A) → Run A
on_entry none k = fault
on_entry (some e) k = k e

-- An invalid entry that is downloaded anew.
abbrev pub refilled : Entry → ℕ → Block → Entry
refilled e thread b = record e {
  status = downloading;
  writer_id = some thread;
  block = b;
  already_written = 0;
  all_size = 0;
}

abbrev pub refill : Connection → ℕ → ℕ → List Entry → Entry → Block → Found
refill c thread j cache e b = record {
  found = false;
  connection = record c { cache_index = some j };
  cache = set cache j (refilled e thread b);
}

abbrev pub search_hit : Connection → ℕ → ℕ → List Entry → Entry → EntryStatus → Run Found
search_hit c thread j cache e invalid =
    free_block e.block >>= λ b. done (refill c thread j cache e b)
search_hit c thread j cache e s =
    done (record { found = true; connection = respond_from j c; cache = cache })

abbrev pub search_miss : Bytes → Connection → ℕ → List Entry → Found
search_miss url c thread cache =
    if leb max_cache_size (length cache)
    then record { found = false; connection = record c { cache_index = none }; cache = cache }
    else record {
      found = false;
      connection = record c { cache_index = some (length cache) };
      cache = cache ++ new_entry url thread ∷ [];
    }

-- What follows the loop.
abbrev pub search_at : Bytes → Connection → ℕ → List Entry → Option ℕ → Run Found
search_at url c thread cache none = done (search_miss url c thread cache)
search_at url c thread cache (some j) =
    on_entry (get_elem? cache j) λ e. search_hit c thread j cache e e.status

unfoldable pub search_cache : Bytes → Connection → ℕ → List Entry → Run Found
search_cache url c thread cache = search_at url c thread cache (find_url url cache)

abbrev pub modify : List Entry → ℕ → (Entry → Entry) → List Entry
modify [] j f = []
modify (e ∷ es) zero f = f e ∷ es
modify (e ∷ es) (suc j) f = e ∷ modify es j f

abbrev pub invalidated : Entry → Entry
invalidated e = record e { status = invalid; writer_id = none }

-- An index behind the entries in use names a slot of the array that nothing reads; -1 is out of
-- the array.
unfoldable pub make_cache_invalid : Option ℕ → List Entry → Run (List Entry)
make_cache_invalid none cache = fault
make_cache_invalid (some j) cache = done (modify cache j invalidated)
