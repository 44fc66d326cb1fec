-- ===== src/Translator/Order.antt =====
-- What Lab25/select_loop.c received of a direction beside what it sent on.
use os_posix.Prelude.{
  ℕ, zero, suc, ◌≤◌, ◌≡◌, refl, ap, ◌∙◌, Bool, true, false, not, Option, none, some, [], ◌∷◌, ◌++◌,
  append-nil, arith, length, take,
}
use os_posix.Proxy.Memory.{Bytes, Run, fault, ◌>>=◌, Finishes, Finishes-bind}
use os_posix.Translator.{
  Pending, holds, wrapped, Channel, Connection, has_bytes, FdSets, wanted, Io, receive,
  forward_bytes, receive_if, forward_if, or_break, touch, back_turn, turn,
}

abbrev pub bytes_of : Pending → Bytes
bytes_of (holds bs) = bs
bytes_of wrapped = []

-- What was received was sent on, or is pending.
abbrev pub InOrder : Channel → Type 0
InOrder ch = ch.received ≡ ch.forwarded ++ bytes_of ch.pending

-- The count is right, and a `send` that succeeds takes everything.
abbrev pub Whole : Option ℕ → Pending → Type 0
Whole r wrapped = ⊥
Whole none (holds bs) = Unit
Whole (some n) (holds bs) = length bs ≤ n

no_bytes : (p : Pending) → has_bytes p ≡ false → bytes_of p ≡ []
no_bytes (holds []) h = refl
no_bytes (holds (b ∷ bs)) h = absurd (ground arith)
no_bytes wrapped h = refl

receive-InOrder :
    (r : Option Bytes) (ch : Channel)
    → InOrder ch
    → bytes_of ch.pending ≡ []
    → InOrder (receive r ch)
receive-InOrder none ch h e = h ∙ ap (λ x. ch.forwarded ++ x) e
receive-InOrder (some bs) ch h e =
    ap (λ x. x ++ bs) (h ∙ ap (λ x. ch.forwarded ++ x) e ∙ append-nil ch.forwarded)

abbrev GoodOption : Option Channel → Type 0
GoodOption none = Unit
GoodOption (some ch) = InOrder ch

take_whole : (n : ℕ) (bs : Bytes) → length bs ≤ n → take n bs ≡ bs
take_whole zero [] h = refl
take_whole (suc n) [] h = refl
take_whole zero (b ∷ bs) h = absurd (omega arith)
take_whole (suc n) (b ∷ bs) h = ap (λ cs. b ∷ cs) (take_whole n bs (omega arith))

forward-Good :
    (p : Pending) (r : Option ℕ) (ch : Channel)
    → ch.received ≡ ch.forwarded ++ bytes_of p
    → Whole r p
    → Finishes GoodOption (forward_bytes p r ch)
forward-Good wrapped r ch h w = elim w [ ]
forward-Good (holds bs) none ch h w = (_, refl, tt)
forward-Good (holds bs) (some n) ch h w =
    (_, refl, rw (take_whole n bs w, append-nil (ch.forwarded ++ bs)) h)

-- A direction is read only when nothing is pending, and written only when something is, as
-- `select` was asked.
pub record IsAsked (read write : Bool) (ch : Channel) : Type 0 where
  pub reads : read ≡ true → has_bytes ch.pending ≡ false
  pub writes : write ≡ true → has_bytes ch.pending ≡ true

pass-Good :
    (read write : Bool) (got : Option Bytes) (r : Option ℕ) (ch : Channel)
    → InOrder ch
    → IsAsked read write ch
    → Whole r ch.pending
    → InOrder (receive_if read got ch)
      × Finishes GoodOption (forward_if write r (receive_if read got ch))
pass-Good false false got r ch h a w = (h, (_, refl, h))
pass-Good false true got r ch h a w = (h, forward-Good ch.pending r ch h w)
pass-Good true false got r ch h a w =
    let good = receive-InOrder got ch h (no_bytes ch.pending (a.reads refl)) in
    (good, (_, refl, good))
pass-Good true true got r ch h a w =
    let read = a.reads refl in let write = a.writes refl in absurd (cc)

abbrev pub BothInOrder : Connection → Type 0
BothInOrder c = InOrder c.to_backend × InOrder c.to_client

touch-InOrder : (b : Bool) (now : ℕ) (c : Connection) → BothInOrder c → BothInOrder (touch b now c)
touch-InOrder false now c h = h
touch-InOrder true now c h = h

or_break-InOrder :
    (c : Connection) (r : Option Channel) (k : Channel → Run Connection)
    → BothInOrder c
    → GoodOption r
    → ((ch : Channel) → InOrder ch → Finishes BothInOrder (k ch))
    → Finishes BothInOrder (or_break c r k)
or_break-InOrder c none k h good next = (_, refl, h)
or_break-InOrder c (some ch) k h good next = next ch good

back_turn-InOrder :
    (ready : FdSets) (io : Io) (updated : Bool) (c : Connection)
    → BothInOrder c
    → IsAsked ready.backend_read ready.client_write c.to_client
    → Whole io.to_client c.to_client.pending
    → Finishes BothInOrder (back_turn ready io updated c)
back_turn-InOrder ready io updated c h a w =
    let filled = receive_if ready.backend_read io.from_backend c.to_client in
    let (good, sent) =
      pass-Good ready.backend_read ready.client_write io.from_backend io.to_client c.to_client h.1 a
        w in
    Finishes-bind GoodOption BothInOrder (forward_if ready.client_write io.to_client filled) _ sent
      (λ r ok.
        or_break-InOrder (record c { to_client = filled }) r _ (h.0, good) ok
          (λ ch done_well.
            (_, refl, touch-InOrder _ io.now (record c { to_client = ch }) (h.0, done_well))))

-- Each ready socket is one that `select` was asked for.
pub record IsWithin (ready asked : FdSets) : Type 0 where
  pub client_read : ready.client_read ≡ true → asked.client_read ≡ true
  pub backend_write : ready.backend_write ≡ true → asked.backend_write ≡ true
  pub backend_read : ready.backend_read ≡ true → asked.backend_read ≡ true
  pub client_write : ready.client_write ≡ true → asked.client_write ≡ true

not-true : (b : Bool) → not b ≡ true → b ≡ false
not-true false h = refl
not-true true h = absurd (cc)

within-IsAsked :
    (ready : FdSets) (c : Connection)
    → IsWithin ready (wanted c)
    → IsAsked ready.client_read ready.backend_write c.to_backend
      × IsAsked ready.backend_read ready.client_write c.to_client
unfolding wanted
within-IsAsked ready c v = (
  record { reads = λ e. not-true _ (v.client_read e); writes = v.backend_write },
  record { reads = λ e. not-true _ (v.backend_read e); writes = v.client_write },
)

-- If `select` reports only what it was asked for, no `recv` failed before and each `send` that
-- succeeds takes all it is given, then a turn does not fault, and it keeps this for both
-- directions: what was received is what was sent on, in order, and after it what is pending.
pub turn-InOrder :
    (ready : FdSets) (io : Io) (c : Connection)
    → IsWithin ready (wanted c)
    → Whole io.to_backend c.to_backend.pending
    → Whole io.to_client c.to_client.pending
    → BothInOrder c
    → Finishes BothInOrder (turn ready io c)
unfolding turn
turn-InOrder ready io c v w1 w2 h =
    let (front, back) = within-IsAsked ready c v in
    let filled = receive_if ready.client_read io.from_client c.to_backend in
    let (good, sent) =
      pass-Good ready.client_read ready.backend_write io.from_client io.to_backend c.to_backend h.0
        front w1 in
    Finishes-bind GoodOption BothInOrder (forward_if ready.backend_write io.to_backend filled) _
      sent
      (λ r ok.
        or_break-InOrder (record c { to_backend = filled }) r _ (good, h.1) ok
          (λ ch done_well.
            back_turn-InOrder ready io _ (record c { to_backend = ch }) (done_well, h.1) back w2))

abbrev pub only_client_read : FdSets
only_client_read = record {
  client_read = true;
  backend_write = false;
  backend_read = false;
  client_write = false;
}

abbrev pub only_backend_write : FdSets
only_backend_write = record {
  client_read = false;
  backend_write = true;
  backend_read = false;
  client_write = false;
}

-- A turn in which only the backend is written, after one in which only the client was read and its
-- `recv` failed, reads past the end of the buffer.
pub failed_receive_overrun :
    (io io' : Io) (c : Connection)
    → io.from_client ≡ none
    → (turn only_client_read io c >>= λ c1. turn only_backend_write io' c1) ≡ fault
unfolding turn
failed_receive_overrun io io' c e = rw e refl
