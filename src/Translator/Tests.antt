-- ===== src/Translator/Tests.antt =====
-- Turns of Lab25 at a concrete connection.
use os_posix.Prelude.{◌≡◌, refl, true, false, none, some, [], ◌∷◌, arith}
use os_posix.Proxy.Memory.{fault, ◌>>=◌, Finishes}
use os_posix.Translator.{holds, Connection, new_channel, wanted, Io, turn, is_stale}
use os_posix.Translator.Order.{
  BothInOrder, turn-InOrder, only_client_read, only_backend_write, failed_receive_overrun,
}

-- Two bytes of the client are pending.
abbrev connection : Connection
connection = record {
  id = 4;
  client_fd = 3;
  backend_fd = 4;
  to_backend = record {
    pending = holds (7 ∷ 8 ∷ []);
    received = 6 ∷ 7 ∷ 8 ∷ [];
    forwarded = 6 ∷ [];
  };
  to_client = new_channel;
  is_broken = false;
  last_update = 10;
}

abbrev io : Io
io = record {
  from_client = none;
  to_backend = some 2;
  from_backend = none;
  to_client = none;
  now = 12;
}

turn-InOrder_example : Finishes BothInOrder (turn only_backend_write io connection)
unfolding wanted
turn-InOrder_example =
    turn-InOrder only_backend_write io connection
      (record {
        client_read = λ e. absurd (cc);
        backend_write = λ e. refl;
        backend_read = λ e. absurd (cc);
        client_write = λ e. absurd (cc);
      })
      (omega arith) tt (refl, refl)

failed_receive_overrun_test :
    (turn only_client_read io connection >>= λ c1. turn only_backend_write io c1) ≡ fault
failed_receive_overrun_test = failed_receive_overrun io io connection refl

times_out : is_stale 15 connection ≡ true
unfolding is_stale
times_out = refl
