-- ===== src/Proxy/Worker/Cached/Pages.antt =====
-- A whole page served from the cache of Lab31/main.c: the turns RESPONDING_FROM_CACHE of one
-- connection, one after another.
use mathlib.Core.Path.{subst}
use os_posix.Prelude.{
  ℕ, ◌+◌, ◌-◌, ◌≤◌, ◌<◌, ◌≡◌, refl, ap, sym, ◌∙◌, false, Option, List, [], ◌∷◌, ◌++◌, append_assoc,
  append-nil, arith, length, take, drop, dec_lt,
}
use os_posix.Proxy.Memory.{Bytes, done}
use os_posix.Proxy.Cache.{Entry}
use os_posix.Proxy.Pool.{Pool, drop_connection}
use os_posix.Proxy.Worker.{Io}
use os_posix.Proxy.Worker.Cached.{chunk, went_on, on_responding_from_cache}
use os_posix.Prelude.{take_some, drop-drop, take_two}
use os_posix.Proxy.Worker.Cached.Served.{
  respond_all, Takes, all_sent, takes, bytes_of, AllTo, IsServing, IsComplete, taken, goes_on, ends,
  taken-IsServing,
}

module _ (i j thread : ℕ) (e : Entry) (bs : Bytes) (socket : Option ℕ) (c : IsComplete e bs) where
  -- The client gets the bytes from `k` to `m` of the page, in some pieces.
  abbrev pub Sends : ℕ → ℕ → Pool → Pool → Type 0
  Sends k m p p' =
      (pieces : List (Option ℕ × Bytes)) × (p'.sent ≡ p.sent ++ pieces)
      × AllTo socket pieces
      × (bytes_of pieces ≡ take (m - k) (drop k bs))

  Takes-le : {m k : ℕ} {ios : List Io} → Takes bs m k ios → k ≤ m
  Takes-le (all_sent e) = omega (arith, e)
  Takes-le (takes io n ready result small below more rest) = omega (arith, Takes-le rest)

  -- No turn is left when all is sent.
  Takes-end : {m k : ℕ} {ios : List Io} → Takes bs m k ios → k ≡ length bs → (ios ≡ []) × (k ≡ m)
  Takes-end (all_sent e) h = (refl, e)
  Takes-end (takes io n ready result small below more rest) h = absurd (omega arith)

  Sends-nothing : (k m : ℕ) (p : Pool) → k ≡ m → Sends k m p p
  Sends-nothing k m p e =
      ([], sym (append-nil p.sent), tt, let z : m - k ≡ 0 = omega (arith, e) in rw z refl)

  Sends-more :
      (k n m : ℕ) (p q p' : Pool)
      → (p.connections i).client_socket ≡ socket
      → q.sent ≡ (taken i j thread e bs socket c k n p).sent
      → n ≤ chunk
      → k + n ≤ m
      → Sends (k + n) m q p'
      → Sends k m p p'
  Sends-more k n m p q p' client same small below (pieces, sent, to, is) = (
    ((p.connections i).client_socket, take n (take chunk (drop k bs))) ∷ pieces,
    sent ∙ ap (λ l. l ++ pieces) same ∙ append_assoc p.sent _ pieces,
    (client, to),
    ap (λ l. take n (take chunk (drop k bs)) ++ l) is
        ∙ ap (λ l. l ++ take (m - (k + n)) (drop (k + n) bs)) (take_some n chunk (drop k bs) small)
        ∙ ap (λ l. take n (drop k bs) ++ take (m - (k + n)) l) (sym (drop-drop k n bs))
        ∙ take_two n (m - (k + n)) (drop k bs)
        ∙ ap (λ l. take l (drop k bs)) (omega arith),
  )

  -- What the turns leave: a connection that is still served, or one that was dropped.
  abbrev pub Leaves : ℕ → Pool → Pool → Type 0
  Leaves m p p' =
      (m < length bs → IsServing i j e socket m p')
      × (m ≡ length bs → (p'.count ≡ p.count - 1) × (p'.closed ≡ p.closed ++ socket ∷ []))

  sent-drop :
      (p : Pool)
      → ((drop_connection i false p).sent ≡ p.sent)
        × ((drop_connection i false p).count ≡ p.count - 1)
        × ((drop_connection i false p).closed ≡ p.closed ++ (p.connections i).client_socket ∷ [])
  unfolding drop_connection
  sent-drop p = (refl, refl, refl)

  respond_all_run :
      (io : Io) (ios : List Io) (p q : Pool)
      → on_responding_from_cache i io thread [] p ≡ done (went_on q)
      → respond_all i thread (io ∷ ios) p ≡ respond_all i thread ios q
  unfolding respond_all
  respond_all_run io ios p q e = rw e refl

  respond_all_end : (ios : List Io) (p : Pool) → ios ≡ [] → respond_all i thread ios p ≡ done p
  unfolding respond_all
  respond_all_end ios p e = rw e refl

  -- When the client of a connection that is served from a complete entry is writable in each turn
  -- and `send` takes what it likes of the bytes that it is given, until `m` bytes were sent, then
  -- the turns do not fault, and hand to the client the bytes from the `k`-th to the `m`-th of the
  -- page, in order. The connection is still served if these are not all, and if they are it was
  -- dropped, with its client's socket closed.
  pub page_in_turns :
      {m k : ℕ} {ios : List Io} {p : Pool}
      → IsServing i j e socket k p
      → k < length bs
      → Takes bs m k ios
      → (p' : Pool) × (respond_all i thread ios p ≡ done p') × Sends k m p p' × Leaves m p p'
  page_in_turns {m} {k} {p = p} v more (all_sent same) = (
    p,
    unfold respond_all in refl,
    Sends-nothing k m p same,
    (λ less. subst (λ x. IsServing i j e socket x p) same v, λ all. absurd (omega (arith, same))),
  )
  page_in_turns {m} {k} {p = p} v more (takes {ios} io n ready result small below _ rest) =
      elim (dec_lt (k + n) (length bs)) [
        | yes less ↦
            let (p', run, sends_rest, leaves) =
              page_in_turns (taken-IsServing i j thread e bs socket c k n p v) less rest in
            (
              p',
              respond_all_run io ios p (taken i j thread e bs socket c k n p)
                    (goes_on i j thread e bs socket c k n io p v ready result more less)
                  ∙ run,
              Sends-more k n m p (taken i j thread e bs socket c k n p) p' v.client refl small
                  (Takes-le rest) sends_rest,
              leaves,
            )
        | no all ↦
            let full : k + n ≡ length bs = omega arith in
            let (over, at_m) = Takes-end rest full in
            let q = taken i j thread e bs socket c k n p in
            let (sent, count, closed) = sent-drop q in
            (
              drop_connection i false q,
              respond_all_run io ios p (drop_connection i false q)
                    (ends i j thread e bs socket c k n io p v ready result more full)
                  ∙ respond_all_end ios (drop_connection i false q) over,
              Sends-more k n m p (drop_connection i false q) (drop_connection i false q) v.client
                  sent small (omega (arith, at_m))
                  (Sends-nothing (k + n) m (drop_connection i false q) at_m),
              (
                λ less. absurd (omega (arith, at_m, full)),
                λ all. (
                  count,
                  closed
                      ∙ ap (λ l. p.closed ++ l ∷ [])
                          (taken-IsServing i j thread e bs socket c k n p v).client,
                ),
              ),
            )
      ]
