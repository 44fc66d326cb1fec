-- ===== src/Translator/Chain/Create.antt =====
-- `connection_create` of Lab25/connection.c on a chain.
use os_posix.Prelude.{ℕ, ◌≡◌, ◌≢◌, refl, false, none, some, [], ◌∷◌, arith}
use os_posix.Translator.{Connection, new_channel}
use os_posix.Translator.Chain.{Ptr, null, node, Heap, write, connection_create}
use os_posix.Translator.Chain.Links.{Cells, first, has, Links, IsChain, Links-frame}

abbrev pub created : ℕ → ℕ → ℕ → Connection
created client backend now = record {
  id = backend;
  client_fd = client;
  backend_fd = backend;
  to_backend = new_channel;
  to_client = new_channel;
  is_broken = false;
  last_update = now;
}

fresh-has : (h : Heap) (a f : Ptr) (cs : Cells) → h f ≡ none → Links h a cs → has f cs ≡ false
fresh-has h a f [] n l = refl
fresh-has h a f ((p, c) ∷ cs) n l = ground (arith, fresh-has h p f cs n l.1)

-- With a fresh address the new connection stands first, and the others behind it as they were.
pub connection_create-IsChain :
    (client backend now : ℕ) (f : Ptr) (h : Heap) (head : Ptr) (cs : Cells)
    → f ≢ null
    → h f ≡ none
    → IsChain h head cs
    → (h' : Heap) × (connection_create client backend now f (h, head) ≡ some (h', f))
      × IsChain h' f ((f, created client backend now) ∷ cs)
unfolding connection_create
connection_create-IsChain client backend now f h head [] nn n v =
    let h' : Heap = write h f (some (node (created client backend now) head null)) in
    (
      h',
      ground (arith, v.head),
      record {
        head = refl;
        links = (ground (arith, v.head), tt);
        distinct = (ground arith, refl, tt);
      },
    )
connection_create-IsChain client backend now f h head ((q, d) ∷ cs) nn n v =
    let out = fresh-has h null f ((q, d) ∷ cs) n v.links in
    let h1 : Heap = write h f (some (node (created client backend now) head null)) in
    let h' : Heap = write h1 head (some (node d (first cs) f)) in
    (
      h',
      ground (arith, v.head, v.links, v.distinct),
      record {
        head = refl;
        links = (
          ground (arith, v.head),
          (
            ground (arith, v.head),
            Links-frame h h' q cs (λ r i. ground (arith, v.head, v.distinct)) v.links.1,
          ),
        );
        distinct = (ground arith, out, v.distinct);
      },
    )
