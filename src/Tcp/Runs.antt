-- ===== src/Tcp/Runs.antt =====
-- A connection over time: segments of a stream that come in any order, and reads, by
-- kernel/src/net/tcp.rs and kernel/src/net/socket.rs.
use kontsnor_os.Prelude.{
  ℕ, ◌+◌, ◌-◌, ◌<◌, ◌≤◌, ◌^◌, ◌≡◌, refl, sym, ap, ◌∙◌, true, false, Bool-cases, inl, inr, List, [],
  ◌∷◌, ◌++◌, Option, none, some, ltb, leb, ◌==◌, ◌&&◌, ◌||◌, min, length, length-drop, take, drop,
  take-append-drop, arith,
}
use mathlib.Core.Path.{subst}
use mathlib.Core.List.{append_assoc, append-nil}
use kontsnor_os.Tcp.{
  Socket, Reply, established, tcp_max_recv_buf, tcp_rst, tcp_fin, has, rcv_wnd, process_segment,
  ReadResult, copied, failed, copy_out, is_established, is_closed, empty_result, try_read,
  read_loop, read,
}
use kontsnor_os.Tcp.Sequence.{seq_at}
use kontsnor_os.Tcp.Stream.{length-slice, Sits-slice}
use kontsnor_os.Tcp.Queue.{Queued-empty}
use kontsnor_os.Tcp.Drain.{Holds}
use kontsnor_os.Tcp.Connection.{process_segment-Accepted}

abbrev pub bytes_of : ReadResult → List ℕ
bytes_of (copied bs) = bs
bytes_of (failed e) = []

-- A segment with the `n` bytes from the position `p` of the stream on, or a read of `len` bytes that
-- does not block.
pub data Event : Type 0 where
  arrives : (p n ack flags : ℕ) → Event
  reads : (len : ℕ) → Event

abbrev after_read : List ℕ → Socket → Option (ReadResult × Option Reply × Socket) → List ℕ × Socket
after_read gone s none = (gone, s)
after_read gone s (some (r, reply, s')) = (gone ++ bytes_of r, s')

read-copy_out :
    (len : ℕ) (s : Socket)
    → s.tcp_state ≡ established
    → (length s.tcp_recv_buf == 0) ≡ false
    → ◌≡◌ {A = Option (ReadResult × Option Reply × Socket)}
        (read true len [] s)
        (some (copy_out len s))
unfolding read read_loop try_read
read-copy_out len s st e =
    let open_ : is_closed s.tcp_state ≡ false = ap is_closed st in
    rw (open_, e, read, read_loop, try_read) refl

read-failed :
    (len : ℕ) (s : Socket)
    → s.tcp_state ≡ established
    → (length s.tcp_recv_buf == 0) ≡ true
    → ◌≡◌ {A = Option (ReadResult × Option Reply × Socket)}
        (read true len [] s)
        (some (failed 11, none, s))
unfolding read read_loop try_read
read-failed len s st e =
    let open_ : is_closed s.tcp_state ≡ false = ap is_closed st in
    let waits : empty_result true s.so_error s.tcp_state ≡ some (failed 11) =
      ap (empty_result true s.so_error) st in
    rw (open_, e, waits, read, read_loop, try_read) refl

module _ (i : ℕ) (stream : List ℕ) where
  -- The bytes that were read, and the socket.
  pub step : Event → List ℕ × Socket → List ℕ × Socket
  step (arrives p n ack flags) (gone, s) =
      let (reply, s') = process_segment (seq_at i p) ack flags (take n (drop p stream)) s in
      (gone, s')
  step (reads len) (gone, s) = after_read gone s (read true len [] s)

  pub run : List Event → List ℕ × Socket → List ℕ × Socket
  run [] z = z
  run (e ∷ es) z = run es (step e z)

  -- A segment has a byte at least, all of the stream, and neither of the flags RST and FIN.
  abbrev pub OfStream : Event → Type 0
  OfStream (arrives p n ack flags) =
      (0 < n) × (p + n ≤ length stream) × (has flags tcp_rst ≡ false) × (has flags tcp_fin ≡ false)
  OfStream (reads len) = Unit

  abbrev pub AllOfStream : List Event → Type 0
  AllOfStream [] = Unit
  AllOfStream (e ∷ es) = OfStream e × AllOfStream es

  -- The invariant: an established connection that holds all bytes before some position.
  abbrev pub Receives : List ℕ × Socket → Type 0
  Receives (gone, s) = ((nxt : ℕ) × Holds i stream gone nxt s) × (s.tcp_state ≡ established)

  copy_out-Receives :
      (len : ℕ) (gone : List ℕ) (s : Socket)
      → Receives (gone, s)
      → let (r, reply, s') = copy_out len s in Receives (gone ++ bytes_of r, s')
  unfolding copy_out
  copy_out-Receives len gone s ((nxt, h), st) =
      let n = min len (length s.tcp_recv_buf) in
      let short = length-drop n s.tcp_recv_buf in
      let whole : (gone ++ take n s.tcp_recv_buf) ++ drop n s.tcp_recv_buf ≡ take nxt stream =
        append_assoc gone (take n s.tcp_recv_buf) (drop n s.tcp_recv_buf)
        ∙ ap (λ l. gone ++ l) (take-append-drop n s.tcp_recv_buf)
        ∙ h.got in
      let h' : (w : ℕ)
          → Holds i stream (gone ++ take n s.tcp_recv_buf) nxt
              (record s { tcp_recv_buf = drop n s.tcp_recv_buf; tcp_rcv_wnd = w }) =
        λ w. record {
          expects = h.expects;
          within = h.within;
          got = whole;
          queued = h.queued;
          room = omega (arith, short, h.room);
        } in
      let new_buf_len = length (drop n s.tcp_recv_buf) in
      let new_wnd = rcv_wnd new_buf_len in
      let send =
        ((new_buf_len == 0)
          || ((ltb s.tcp_rcv_wnd 32768 && leb 32768 new_wnd)
              || (((s.tcp_rcv_wnd == 0) && ltb 0 new_wnd) || leb 16384 (new_wnd - s.tcp_rcv_wnd))))
        && is_established s.tcp_state in
      elim (Bool-cases (ltb 0 n)) [
        | inr e ↦
            let same : gone ++ [] ≡ gone = append-nil gone in
            rw (e, copy_out) ((nxt, subst (λ g. Holds i stream g nxt s) (sym same) h), st)
        | inl e ↦ elim (Bool-cases send) [
          | inl b ↦ rw (e, b, copy_out) ((nxt, h' new_wnd), st)
          | inr b ↦ rw (e, b, copy_out) ((nxt, h' s.tcp_rcv_wnd), st)
        ]
      ]

  read-Receives :
      (len : ℕ) (gone : List ℕ) (s : Socket)
      → Receives (gone, s)
      → Receives (step (reads len) (gone, s))
  unfolding step
  read-Receives len gone s h =
      let st : s.tcp_state ≡ established = h.1 in
      elim (Bool-cases (length s.tcp_recv_buf == 0)) [
        | inl e ↦
            subst (λ o. Receives (after_read gone s o)) (sym (read-failed len s st e))
              (subst (λ g. Receives (g, s)) (sym (append-nil gone)) h)
        | inr e ↦
            subst (λ o. Receives (after_read gone s o)) (sym (read-copy_out len s st e))
              (copy_out-Receives len gone s h)
      ]

  step-Receives :
      (e : Event) (z : List ℕ × Socket)
      → length stream < 2 ^ 31
      → OfStream e
      → Receives z
      → Receives (step e z)
  step-Receives (reads len) (gone, s) low o h = read-Receives len gone s h
  step-Receives (arrives p n ack flags) (gone, s) low o h =
      let (some_data, inside, rst, fin) = o in
      let ((nxt, held), st) = h in
      let len = length-slice stream p n inside in
      let ((nxt', le, held', more), st', answer) =
        process_segment-Accepted i stream gone nxt p ack flags (take n (drop p stream)) s low held
          st rst fin (omega (arith, len, some_data)) (Sits-slice stream p n inside) in
      unfold step in ((nxt', held'), st')

  run-Receives :
      (es : List Event) (z : List ℕ × Socket)
      → length stream < 2 ^ 31
      → AllOfStream es
      → Receives z
      → Receives (run es z)
  unfolding run
  run-Receives [] z low o h = h
  run-Receives (e ∷ es) z low o h = run-Receives es (step e z) low o.1 (step-Receives e z low o.0 h)

  -- A connection is established and has received nothing yet, its next number being the stream's
  -- first. After any sequence of segments with stretches of the stream, in any order, repeated or
  -- overlapping, and of reads that do not block, the bytes that were read and those in the buffer are
  -- together the bytes of the stream before some position, in order, and the next number that the
  -- connection expects is that of this position; the buffer has not outgrown its maximum. The stream
  -- has fewer than 2^31 bytes, and no segment has the flag RST or FIN.
  pub run_received :
      (es : List Event) (s : Socket)
      → length stream < 2 ^ 31
      → AllOfStream es
      → s.tcp_state ≡ established
      → s.tcp_rcv_nxt ≡ seq_at i 0
      → s.tcp_recv_buf ≡ []
      → s.tcp_ooo_queue ≡ []
      → let (gone, s') = run es ([], s) in
        (nxt : ℕ) × (nxt ≤ length stream)
        × (gone ++ s'.tcp_recv_buf ≡ take nxt stream)
        × (s'.tcp_rcv_nxt ≡ seq_at i nxt)
        × (length s'.tcp_recv_buf ≤ tcp_max_recv_buf)
  run_received es s low o st at none_yet no_queue =
      let start : Receives ([], s) =
        unfold Receives in
        (
          (
            0,
            record {
              expects = at;
              within = omega arith;
              got = none_yet;
              queued = Queued-empty i stream s.tcp_ooo_queue no_queue;
              room = subst (λ l. length l ≤ tcp_max_recv_buf) (sym none_yet) (omega arith);
            },
          ),
          st,
        ) in
      let ((nxt, h), st') = run-Receives es ([], s) low o start in
      (nxt, h.within, h.got, h.expects, h.room)
