-- ===== src/Tcp/Ending.antt =====
-- The end of a connection: what kernel/src/net/tcp.rs does with the flag FIN on an established
-- connection, and what kernel/src/net/socket.rs then reads.
use kontsnor_os.Prelude.{ℕ}
use kontsnor_os.Prelude.Word.{wrapping_add32}
use kontsnor_os.Tcp.{Socket, close_wait}
use kontsnor_os.Tcp.Connection.{acknowledge}

abbrev finish : (ack flags : ℕ) → Socket → Socket
finish ack flags s =
    let acked = acknowledge ack flags s in
    record acked { tcp_rcv_nxt = wrapping_add32 acked.tcp_rcv_nxt 1; tcp_state = close_wait }
