-- ===== src/Tcp/Tests.antt =====
-- A stream of six bytes whose numbers pass 2^32, in segments out of order.
use kontsnor_os.Prelude.{ℕ, ◌≤◌, ◌≡◌, refl, List, [], ◌∷◌, ◌++◌, some, length, take, arith}
use kontsnor_os.Tcp.{Socket, established, tcp_ack, tcp_max_recv_buf, rcv_wnd, process_segment}
use kontsnor_os.Tcp.Sequence.{seq_at}
use kontsnor_os.Tcp.Queue.{Queued-empty}
use kontsnor_os.Tcp.Drain.{Holds, Drained}
use kontsnor_os.Tcp.Connection.{process_segment_advances}
use kontsnor_os.Tcp.Runs.{Event, arrives, reads, run, AllOfStream, run_received}

abbrev first : ℕ
first = 4294967294

abbrev bytes : List ℕ
bytes = 10 ∷ 11 ∷ 12 ∷ 13 ∷ 14 ∷ 15 ∷ []

abbrev fresh : Socket
fresh = record {
  tcp_state = established;
  tcp_snd_una = 1000;
  tcp_snd_nxt = 1001;
  tcp_rcv_nxt = first;
  tcp_recv_buf = [];
  tcp_rcv_wnd = 65535;
  tcp_ooo_queue = [];
  so_error = 0;
}

fresh-Holds : Holds first bytes [] 0 fresh
fresh-Holds = record {
  expects = refl;
  within = omega arith;
  got = refl;
  queued = Queued-empty first bytes [] refl;
  room = omega arith;
}

-- Bytes 2 and 3 come first, then 0 to 2.
abbrev events : List Event
events = arrives 2 2 1001 16 ∷ arrives 0 3 1001 16 ∷ reads 3 ∷ arrives 4 2 1001 16 ∷ []

events-AllOfStream : AllOfStream first bytes events
events-AllOfStream = (
  (omega arith, omega arith, refl, refl),
  ((omega arith, omega arith, refl, refl), (tt, ((omega arith, omega arith, refl, refl), tt))),
)

run_received_example :
    (nxt : ℕ) × (nxt ≤ 6)
    × ((run first bytes events ([], fresh)).0 ++ (run first bytes events ([], fresh)).1.tcp_recv_buf
        ≡ take nxt bytes)
    × ((run first bytes events ([], fresh)).1.tcp_rcv_nxt ≡ seq_at first nxt)
    × (length (run first bytes events ([], fresh)).1.tcp_recv_buf ≤ tcp_max_recv_buf)
run_received_example =
    run_received first bytes events fresh (omega arith) events-AllOfStream refl refl refl refl

process_segment_advances_example :
    (nxt : ℕ) × (3 ≤ nxt)
    × Holds first bytes [] nxt (process_segment first 1001 16 (10 ∷ 11 ∷ 12 ∷ []) fresh).1
    × Drained (process_segment first 1001 16 (10 ∷ 11 ∷ 12 ∷ []) fresh).1
    × ((process_segment first 1001 16 (10 ∷ 11 ∷ 12 ∷ []) fresh).0
        ≡ some (
          1001,
          seq_at first nxt,
          tcp_ack,
          rcv_wnd (length (process_segment first 1001 16 (10 ∷ 11 ∷ 12 ∷ []) fresh).1.tcp_recv_buf),
        ))
process_segment_advances_example =
    process_segment_advances first bytes [] 0 0 1001 16 (10 ∷ 11 ∷ 12 ∷ []) fresh (omega arith)
      fresh-Holds refl refl refl (omega arith, refl) (omega arith) (omega arith) (omega arith)

-- The bytes 2 and 3 wait, and the first three have come.
abbrev waiting : Socket
waiting = record fresh {
  tcp_rcv_nxt = 1;
  tcp_recv_buf = 10 ∷ 11 ∷ 12 ∷ [];
  tcp_ooo_queue = (0, 12 ∷ 13 ∷ []) ∷ [];
}
