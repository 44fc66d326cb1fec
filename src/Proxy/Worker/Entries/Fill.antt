-- ===== src/Proxy/Worker/Entries/Fill.antt =====
-- Soundness of a cache entry that FORWARDING_RESPONSE of Lab31/main.c fills.
use mathlib.Core.Path.{subst}
use os_posix.Prelude.{
  ℕ, zero, suc, ◌+◌, ◌≤◌, ◌≡◌, ◌≢◌, refl, sym, ◌∙◌, inl, inr, Bool, true, false, Option, some, List,
  [], ◌∷◌, ◌++◌, arith, Bool-cases, leb, ◌==◌, length, length-append, length-take, length-drop,
  take, drop, ◌&&◌, get_elem?,
}
use os_posix.Proxy.Memory.{Bytes, Run, done, Returns, Returns-bind}
use os_posix.Proxy.Cache.{Entry, Block, unset, live, freed, modify}
use os_posix.Proxy.Cache.Entries.{
  Filled, IsEntry, AreEntries-at, AreEntries-modify, on_entry-Returns,
}
use os_posix.Proxy.Pool.{Pool, wake_up}
use os_posix.Proxy.Worker.{Io}
use os_posix.Proxy.Worker.Responses.{
  edit_entry, entry_at, first_fill, copy_at, fill_more, mark_valid, finish_if, finish_entry,
  start_entry, cache_more,
}
use os_posix.Proxy.Worker.Entries.{IsSound, drop_connection-IsSound, wake_up-IsSound}

-- An entry that holds what it counts, and something.
pub record IsStarted (e : Entry) : Type 0 where
  pub bs : Bytes
  pub block : e.block ≡ live bs
  pub written : e.already_written ≡ length bs
  pub some_written : e.already_written ≢ 0

pub first_fill-IsEntry :
    (size : ℕ) (bs : Bytes) (e : Entry)
    → length bs ≢ 0
    → e.already_written ≡ 0
    → IsEntry e
    → Returns (λ e'. IsEntry e' × IsStarted e') (first_fill size bs e)
first_fill-IsEntry size bs e ne start h = elim (Bool-cases (leb (length bs) size)) [
  | inr out ↦ rw out tt
  | inl fits ↦ rw fits (
    record {
      filled = (refl, ground arith);
      complete = λ v. let (bs', b, l, w, nz) = h.complete v in absurd (nz start);
    },
    record { bs = bs; block = refl; written = refl; some_written = ne },
  )
]

-- Bytes that are copied behind those that are written.
length-filled :
    (old bs : Bytes) (at : ℕ)
    → at ≡ length old
    → length (take at old ++ (bs ++ drop (at + length bs) old)) ≡ at + length bs
length-filled old bs at e = omega (
  arith,
  length-append (take at old) (bs ++ drop (at + length bs) old),
  length-append bs (drop (at + length bs) old),
  length-take at old,
  length-drop (at + length bs) old,
)

pub copy_at-Filled :
    (size written : ℕ) (bs : Bytes) (b : Block)
    → Filled size written b
    → Returns
        (λ b'.
          (new : Bytes) × (b' ≡ live new)
          × (written + length bs ≡ length new)
          × (length new ≤ size))
        (copy_at size written bs b)
copy_at-Filled size written bs unset h = tt
copy_at-Filled size written bs freed h = tt
copy_at-Filled size written bs (live old) h =
    elim (Bool-cases (leb written (length old) && leb (written + length bs) size)) [
      | inr out ↦ rw out tt
      | inl fits ↦
          let count = length-filled old bs written h.0 in
          rw fits (_, refl, sym count, ground (arith, count))
    ]

pub fill_more-IsEntry :
    (bs : Bytes) (e : Entry)
    → length bs ≢ 0
    → IsEntry e
    → Returns (λ e'. IsEntry e' × IsStarted e') (fill_more bs e)
fill_more-IsEntry bs e ne h =
    Returns-bind _ _ (copy_at e.all_size e.already_written bs e.block) _
      (copy_at-Filled e.all_size e.already_written bs e.block h.filled)
      (λ b got.
        let (new, is, count, fits) = got in
        (
          record {
            filled = rw is (count, fits);
            complete = λ v. let (bs', b', l, w, nz) = h.complete v in absurd (ne (omega arith));
          },
          record { bs = new; block = is; written = count; some_written = λ z. ne (omega arith) },
        ))

modify_at :
    (es : List Entry) (j : ℕ) (new e : Entry)
    → get_elem? (modify es j (λ x. new)) j ≡ some e
    → new ≡ e
modify_at [] j new e at = absurd (cc)
modify_at (f ∷ es) zero new e at = ground arith
modify_at (f ∷ es) (suc j) new e at = modify_at es j new e at

-- The entry that an index names is started.
abbrev pub HasStarted : ℕ → Pool → Type 0
HasStarted j p = (e : Entry) → get_elem? p.cache j ≡ some e → IsStarted e

mark_valid-IsEntry :
    (e : Entry)
    → IsEntry e
    → IsStarted e
    → e.already_written ≡ e.all_size
    → Returns IsEntry (mark_valid e)
mark_valid-IsEntry e h s full = record {
  filled = h.filled;
  complete = λ x. (s.bs, s.block, sym s.written ∙ full, full, s.some_written);
}

pub same_entry : {o : Option Entry} {e e' : Entry} → o ≡ some e → o ≡ some e' → e ≡ e'
same_entry a b = ground (arith, a, b)

-- Nothing is written to the entry yet.
abbrev pub IsFresh : ℕ → Pool → Type 0
IsFresh j p = (e : Entry) → get_elem? p.cache j ≡ some e → e.already_written ≡ 0

wake_up-HasStarted : (j : ℕ) (p : Pool) → HasStarted j p → HasStarted j (wake_up p)
unfolding wake_up
wake_up-HasStarted j p h = h

module _ {most : ℕ} where
  edit_entry-IsSound :
      (j : ℕ) (f : Entry → Run Entry) (p : Pool)
      → IsSound most p
      → ((e : Entry)
          → get_elem? p.cache j ≡ some e
          → IsEntry e
          → Returns (λ e'. IsEntry e' × IsStarted e') (f e))
      → Returns (λ p'. IsSound most p' × HasStarted j p') (edit_entry (some j) f p)
  edit_entry-IsSound j f p h new = on_entry-Returns _ p.cache j _ (λ e at.
      Returns-bind _ _ (f e) _ (new e at (AreEntries-at p.cache j e h.0 at)) (λ e' ok. (
        (AreEntries-modify p.cache j (λ x. e') h.0 (λ x y. ok.0), h.1),
        λ e2 at2. subst IsStarted (modify_at p.cache j e' e2 at2) ok.1,
      )))

  finish_if-IsSound :
      (i j : ℕ) (p : Pool) (b : Bool)
      → IsSound most p
      → HasStarted j p
      → (b ≡ true → (e : Entry) → get_elem? p.cache j ≡ some e → e.already_written ≡ e.all_size)
      → Returns (IsSound most) (finish_if i (some j) p b)
  finish_if-IsSound i j p false h st full = h
  finish_if-IsSound i j p true h st full =
      Returns-bind (IsSound most) (IsSound most) (edit_entry (some j) mark_valid p) _
        (on_entry-Returns (IsSound most) p.cache j _ (λ e at. (
          AreEntries-modify p.cache j _ h.0 (λ x y.
              mark_valid-IsEntry e (AreEntries-at p.cache j e h.0 at) (st e at) (full refl e at)),
          h.1,
        )))
        (λ p' ok. drop_connection-IsSound i true p' ok)

  pub finish_entry-IsSound :
      (i j : ℕ) (p : Pool)
      → IsSound most p
      → HasStarted j p
      → Returns (IsSound most) (finish_entry i (some j) p)
  finish_entry-IsSound i j p h st =
      Returns-bind (λ e. get_elem? p.cache j ≡ some e) (IsSound most) (entry_at (some j) p) _
        (on_entry-Returns _ p.cache j done (λ e at. at))
        (λ e at. finish_if-IsSound i j p (e.already_written == e.all_size) h st (λ hit e' at'.
          let full : e.already_written ≡ e.all_size = ground arith in
          subst (λ x. x.already_written ≡ x.all_size) (same_entry at at') full))

  pub start_entry-IsSound :
      (i : ℕ) (io : Io) (j size : ℕ) (p : Pool)
      → IsSound most p
      → length (p.connections i).buffer ≢ 0
      → IsFresh j p
      → Returns (IsSound most) (start_entry i io (some j) size p)
  start_entry-IsSound i io j size p h ne fresh = elim (Bool-cases io.allocates) [
    | inr out ↦ rw out tt
    | inl ok ↦
        let buffer = (p.connections i).buffer in
        rw ok (
          Returns-bind _ (IsSound most) (edit_entry (some j) (first_fill size buffer) p) _
            (edit_entry-IsSound j (first_fill size buffer) p h
              (λ e at good. first_fill-IsEntry size buffer e ne (fresh e at) good))
            (λ p1 done1.
              Returns-bind (IsSound most) (IsSound most) (finish_entry i (some j) (wake_up p1)) _
                (finish_entry-IsSound i j (wake_up p1) (wake_up-IsSound p1 done1.0)
                  (wake_up-HasStarted j p1 done1.1))
                (λ p2 ok2. ok2)))
  ]

  pub cache_more-IsSound :
      (i j : ℕ) (bs : Bytes) (p : Pool)
      → IsSound most p
      → length bs ≢ 0
      → Returns (IsSound most) (cache_more i (some j) bs p)
  cache_more-IsSound i j bs p h ne =
      Returns-bind _ (IsSound most) (edit_entry (some j) (fill_more bs) p) _
        (edit_entry-IsSound j (fill_more bs) p h (λ e at good. fill_more-IsEntry bs e ne good))
        (λ p1 done1.
          finish_entry-IsSound i j (wake_up p1) (wake_up-IsSound p1 done1.0)
            (wake_up-HasStarted j p1 done1.1))
