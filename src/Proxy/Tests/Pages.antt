-- ===== src/Proxy/Tests/Pages.antt =====
-- The theorems on the cache, the connections and the turns of Lab31 at concrete states.
use os_posix.Prelude.{
  ℕ, zero, suc, ◌+◌, ◌≡◌, ◌≢◌, refl, true, false, Option, none, some, List, [], ◌∷◌, arith,
  ℕ_discrete, get_elem?, take,
}
use mathlib.Core.List.{Perm}
use os_posix.Proxy.Memory.{Bytes, Run, done, fault, ◌>>=◌}
use os_posix.Proxy.Cache.{
  Entry, downloading, valid, invalid, live, freed, Connection, getting_request,
  responding_from_cache, not_active, Found, find_url, search_cache, make_cache_invalid,
}
use os_posix.Proxy.Cache.Search.{IsCache, Outcome, search_cache_lem}
use os_posix.Proxy.Cache.Freeing.{double_free}
use os_posix.Proxy.Pool.{Pool, pos, drop_connection}
use os_posix.Proxy.Pool.Drop.{slots, drop_connection-slots}
use os_posix.Proxy.Worker.{Io, Revents, send}
use os_posix.Proxy.Worker.Cached.{chunk, Turn, on_responding_from_cache, after_send, send_chunk}
use os_posix.Proxy.Worker.Cached.Chunks.{send_chunk-slice, restarted_overrun}
use os_posix.Proxy.Worker.Requests.{on_getting_request}
use os_posix.Proxy.Worker.Rounds.{shared_round, Inputs, turn, round}

abbrev pub page : Bytes
page = 1 ∷ 2 ∷ 3 ∷ []

abbrev pub page_url : Bytes
page_url = b'p' ∷ []

abbrev pub page_entry : Entry
page_entry = record {
  all_size = 3;
  already_written = 3;
  writer_id = some 0;
  url = page_url;
  block = live page;
  status = valid;
}

abbrev pub lost_entry : Entry
lost_entry = record page_entry { url = b'q' ∷ []; status = invalid }

abbrev pub pages : List Entry
pages = page_entry ∷ lost_entry ∷ []

abbrev pub reader : Connection
reader = record {
  client_socket = some 4;
  server_socket = none;
  status = responding_from_cache;
  buffer = [];
  cache_index = some 0;
  cache_bytes_written = 1;
  id = 1000;
}

abbrev pub asker : Connection
asker = record reader {
  client_socket = some 5;
  status = getting_request;
  cache_index = none;
  id = 1001;
}

abbrev pub two_connections : ℕ → Connection
two_connections zero = reader
two_connections (suc i) = asker

abbrev pub pool : Pool
pool = record {
  connections = two_connections;
  count = 2;
  all_connections = pos 2;
  cache = pages;
  closed = [];
  sent = [];
}

pages-IsCache : IsCache pages
pages-IsCache = record { distinct = (refl, (refl, tt)); bounded = omega arith }

no_freed : (j : ℕ) (e : Entry) → get_elem? pages j ≡ some e → e.status ≡ invalid → e.block ≢ freed
no_freed zero e at bad is = absurd (cc)
no_freed (suc zero) e at bad is = absurd (cc)
no_freed (suc (suc j)) e at bad is = absurd (cc)

search_cache_lem_example :
    (f : Found) × (search_cache (b'q' ∷ []) asker 0 pages ≡ done f)
    × IsCache f.cache
    × Outcome (b'q' ∷ []) 0 pages f
search_cache_lem_example = search_cache_lem (b'q' ∷ []) asker 0 pages pages-IsCache no_freed

double_free_test :
    (make_cache_invalid (some 1) pages >>= λ cache1.
    search_cache (b'q' ∷ []) asker 0 cache1 >>= λ f.
    make_cache_invalid (some 1) f.cache >>= λ cache2. search_cache (b'q' ∷ []) asker 0 cache2)
    ≡ fault
unfolding find_url
double_free_test = double_free (b'q' ∷ []) asker 0 1 pages lost_entry page refl refl refl

drop_connection-slots_example :
    Perm (slots 2 two_connections) (
      reader
      ∷ slots (drop_connection 0 false pool).count (drop_connection 0 false pool).connections)
    × ((drop_connection 0 false pool).count + 1 ≡ 2)
    × (((drop_connection 0 false pool).connections (drop_connection 0 false pool).count).status
        ≡ not_active)
drop_connection-slots_example = drop_connection-slots 0 false pool (omega arith)

abbrev pub all_ready : Revents
all_ready = record { hup = false; pollin = true; rdnorm = true; rdband = false; pollout = true }

abbrev pub io : Io
io = record {
  client = all_ready;
  server = all_ready;
  received = some page;
  stale = [];
  send_result = some 1;
  network = record { has_host = λ h. true; socket = some 6; set_reuse = true; connects = true };
  pad = 0;
  allocates = true;
  moves = false;
}

send_chunk-slice_test :
    send_chunk 0 io pool page_entry
    ≡ after_send 0 page_entry (send (some 1) (some 4) (take chunk (2 ∷ 3 ∷ [])) pool) (some 1)
send_chunk-slice_test =
    send_chunk-slice 0 io pool page_entry page refl refl (omega arith) (omega arith)

abbrev fresh_entry : Entry
fresh_entry = record page_entry { already_written = 0; block = live []; status = downloading }

restarted_overrun_test : send_chunk 0 io pool fresh_entry ≡ fault
restarted_overrun_test =
    restarted_overrun 0 io pool fresh_entry [] refl refl (omega arith) (omega arith)

abbrev pub inputs : Inputs
inputs = record { io = λ i. io; wakes = λ i. [] }

-- Before the second turn another thread finds the first entry invalid.
abbrev others : ℕ → Option (List Entry)
others zero = none
others (suc k) = some (lost_entry ∷ lost_entry ∷ [])

-- That round is one turn of a reader, who gets a byte, and one of an asker whose request has not
-- enough bytes.
abbrev closed_or_sent : Run (Option Turn) → List (Option ℕ × Bytes)
closed_or_sent (done (some (Turn.went_on p))) = p.sent
closed_or_sent r = []

round_run : closed_or_sent (round 3 0 inputs 0 pool) ≡ (some 4, 2 ∷ []) ∷ []
unfolding shared_round turn on_responding_from_cache send_chunk on_getting_request ℕ_discrete
round_run = refl
