-- ===== src/Tcp.antt =====
-- The segments that reach a TCP socket: `process_segment` of kernel/src/net/tcp.rs on the fields of
-- `Socket` (kernel/src/net/socket.rs) that it uses. The wake-ups of sleepers, which change no field,
-- are left out. The queue of out-of-order segments is the list of its entries, in the order of their
-- keys.
pub mod Sequence
pub mod Stream
pub mod Queue
pub mod Drain
pub mod Accept
pub mod Connection
pub mod Runs
pub mod Ending
pub mod Header
mod Tests
use kontsnor_os.Prelude.{
  ℕ, zero, suc, ◌+◌, ◌-◌, ◌^◌, min, Bool, true, false, List, [], ◌∷◌, ◌++◌, Option, none, some, ltb,
  leb, ◌==◌, ◌&&◌, ◌||◌, not, if◌then◌else◌, length, take, drop,
}
use kontsnor_os.Prelude.Word.{wrapping_add32, wrapping_sub32}
use Prim.Native.Nat.{bit_and}

abbrev pub tcp_fin : ℕ
tcp_fin = 0x001

abbrev pub tcp_syn : ℕ
tcp_syn = 0x002

abbrev pub tcp_rst : ℕ
tcp_rst = 0x004

abbrev pub tcp_ack : ℕ
tcp_ack = 0x010

abbrev pub tcp_max_recv_buf : ℕ
tcp_max_recv_buf = 524288

pub data TcpState : Type 0 where
  closed listen syn_sent syn_received established : TcpState
  fin_wait1 fin_wait2 close_wait closing last_ack time_wait : TcpState

-- The entries of `tcp_ooo_queue`
abbrev pub OooQueue : Type 0
OooQueue = List (ℕ × List ℕ)

pub record Socket : Type 0 where
  pub tcp_state : TcpState
  pub tcp_snd_una : ℕ
  pub tcp_snd_nxt : ℕ
  pub tcp_rcv_nxt : ℕ
  pub tcp_recv_buf : List ℕ
  pub tcp_rcv_wnd : ℕ
  pub tcp_ooo_queue : OooQueue
  pub so_error : ℕ

abbrev pub is_established : TcpState → Bool
is_established established = true
is_established _ = false

abbrev pub is_closed : TcpState → Bool
is_closed closed = true
is_closed _ = false

-- Sequence number, acknowledgement, flags and window of an answer.
abbrev pub Reply : Type 0
Reply = ℕ × ℕ × ℕ × ℕ

abbrev pub has : (flags flag : ℕ) → Bool
has flags flag = not (bit_and flags flag == 0)

-- `saturating_sub`, then `as u32`, which drops nothing, and `min`
abbrev pub rcv_wnd : (buf_len : ℕ) → ℕ
rcv_wnd buf_len = min (tcp_max_recv_buf - buf_len) 65535

abbrev pub ack_of : Socket → Reply
ack_of s = (s.tcp_snd_nxt, s.tcp_rcv_nxt, tcp_ack, rcv_wnd (length s.tcp_recv_buf))

-- The comparison of sequence numbers: `a` is before `b`.
abbrev pub before : (a b : ℕ) → Bool
before a b = leb (2 ^ 31) (wrapping_sub32 a b)

-- The sequence number and the bytes of a segment that are left when what is there already is off.
pub trim : (seq nxt : ℕ) (payload : List ℕ) → ℕ × List ℕ
trim seq nxt payload =
    let overlap = wrapping_sub32 nxt seq in
    if before seq nxt
    then (if ltb overlap (length payload) then (nxt, drop overlap payload) else (seq, []))
    else (seq, payload)

-- The test of `matching_key`
pub is_match : (cur_nxt k : ℕ) (v : List ℕ) → Bool
is_match cur_nxt k v =
    let ooo_end = wrapping_add32 k (length v) in
    (k == cur_nxt)
    || (before k cur_nxt && (not (before ooo_end cur_nxt) && not (ooo_end == cur_nxt)))

-- `keys().cloned().find`, with the entry of the key
pub find_match : (cur_nxt : ℕ) → OooQueue → Option (ℕ × List ℕ)
find_match cur_nxt [] = none
find_match cur_nxt ((k, v) ∷ q) =
    let rest = find_match cur_nxt q in if is_match cur_nxt k v then some (k, v) else rest

pub remove : ℕ → OooQueue → OooQueue
remove k [] = []
remove k ((j, w) ∷ q) = let rest = (j, w) ∷ remove k q in if k == j then q else rest

-- `entry(k).or_insert_with`
pub or_insert : ℕ → List ℕ → OooQueue → OooQueue
or_insert k v [] = (k, v) ∷ []
or_insert k v ((j, w) ∷ q) =
    let rest = (j, w) ∷ or_insert k v q in
    if k == j then (j, w) ∷ q else if ltb k j then (k, v) ∷ (j, w) ∷ q else rest

-- The removal of the entries that lie behind `cur_nxt`
pub prune : (cur_nxt : ℕ) → OooQueue → OooQueue
prune cur_nxt [] = []
prune cur_nxt ((k, v) ∷ q) =
    let rest = prune cur_nxt q in
    let ooo_end = wrapping_add32 k (length v) in
    if before ooo_end cur_nxt || (ooo_end == cur_nxt) then rest else (k, v) ∷ rest

abbrev pub ooo_used : OooQueue → ℕ
ooo_used [] = 0
ooo_used ((k, v) ∷ q) = length v + ooo_used q

-- The loop that moves entries to the receive buffer; each round but the last removes one, so one
-- round more than there are entries suffices.
pub drain : (fuel : ℕ) → Socket → Socket
drain zero s = s
drain (suc fuel) s =
    let cur_nxt = s.tcp_rcv_nxt in
    elim (find_match cur_nxt s.tcp_ooo_queue) [
      | none ↦ record s { tcp_ooo_queue = prune cur_nxt s.tcp_ooo_queue }
      | some (k, v) ↦
          let overlap = if k == cur_nxt then 0 else wrapping_sub32 cur_nxt k in
          let chunk_len = length v - overlap in
          let chunk = drop overlap v in
          let removed = record s { tcp_ooo_queue = remove k s.tcp_ooo_queue } in
          let taken = drain fuel (record removed {
            tcp_recv_buf = s.tcp_recv_buf ++ chunk;
            tcp_rcv_nxt = wrapping_add32 cur_nxt (length chunk);
          }) in
          let skipped = drain fuel removed in
          if ltb 0 chunk_len
          then (if leb (length s.tcp_recv_buf + chunk_len) tcp_max_recv_buf then taken else s)
          else skipped
    ]

-- What becomes of the bytes that are left of a segment.
pub accept_trimmed : (effective_seq : ℕ) (effective_payload : List ℕ) → Socket → Socket
accept_trimmed effective_seq effective_payload s =
    let len = length effective_payload in
    let taken = record s {
      tcp_recv_buf = s.tcp_recv_buf ++ effective_payload;
      tcp_rcv_nxt = wrapping_add32 effective_seq len;
    } in
    let queued = record s {
      tcp_ooo_queue = or_insert effective_seq effective_payload s.tcp_ooo_queue;
    } in
    if ltb 0 len && (effective_seq == s.tcp_rcv_nxt)
    then (if leb (length s.tcp_recv_buf + len) tcp_max_recv_buf
        then drain (suc (length s.tcp_ooo_queue)) taken
        else s)
    else if ltb 0 len && not (before effective_seq s.tcp_rcv_nxt)
    then (if leb (ooo_used s.tcp_ooo_queue + len) tcp_max_recv_buf then queued else s)
    else s

-- A segment with data on an established connection.
pub accept_data : (seq : ℕ) (payload : List ℕ) → Socket → Socket
accept_data seq payload s =
    let (effective_seq, effective_payload) = trim seq s.tcp_rcv_nxt payload in
    accept_trimmed effective_seq effective_payload s

-- The state `Established`
pub on_established : (seq ack flags : ℕ) (payload : List ℕ) → Socket → Option Reply × Socket
on_established seq ack flags payload s =
    let acked = if has flags tcp_ack then record s { tcp_snd_una = ack } else s in
    let accepted = accept_data seq payload acked in
    let (reply, s') : Option Reply × Socket =
      if ltb 0 (length payload) then (some (ack_of accepted), accepted) else (none, acked) in
    let finished = record s' {
      tcp_rcv_nxt = wrapping_add32 s'.tcp_rcv_nxt 1;
      tcp_state = close_wait;
    } in
    if has flags tcp_rst
    then (none, record s { so_error = 104; tcp_state = closed })
    else if has flags tcp_fin
    then (some (ack_of finished), finished)
    else (reply, s')

-- The match on the state, which is the first argument.
pub on_segment : TcpState → (seq ack flags : ℕ) (payload : List ℕ) → Socket → Option Reply × Socket
on_segment syn_sent seq ack flags payload s =
    let opened = record s {
      tcp_rcv_nxt = wrapping_add32 seq 1;
      tcp_snd_una = ack;
      so_error = 0;
      tcp_state = established;
    } in
    if has flags tcp_rst
    then (none, record s { so_error = 111; tcp_state = closed })
    else if has flags tcp_syn && has flags tcp_ack
    then (some (ack_of opened), opened)
    else (none, s)
on_segment syn_received seq ack flags payload s =
    if has flags tcp_ack
    then (none, record s { tcp_snd_una = ack; tcp_state = established })
    else (none, s)
on_segment established seq ack flags payload s = on_established seq ack flags payload s
on_segment fin_wait1 seq ack flags payload s =
    let acked =
      if has flags tcp_ack then record s { tcp_snd_una = ack; tcp_state = fin_wait2 } else s in
    let finished = record acked { tcp_rcv_nxt = wrapping_add32 seq 1; tcp_state = closing } in
    if has flags tcp_fin
    then (some (finished.tcp_snd_nxt, finished.tcp_rcv_nxt, tcp_ack, 65535), finished)
    else (none, acked)
on_segment fin_wait2 seq ack flags payload s =
    let finished = record s { tcp_rcv_nxt = wrapping_add32 seq 1; tcp_state = closed } in
    if has flags tcp_fin
    then (some (finished.tcp_snd_nxt, finished.tcp_rcv_nxt, tcp_ack, 65535), finished)
    else (none, s)
on_segment _ seq ack flags payload s = (none, s)

-- The window of an answer is kept.
pub keep_window : Option Reply × Socket → Option Reply × Socket
keep_window (none, s) = (none, s)
keep_window (some (r_seq, r_ack, r_flags, wnd), s) =
    (some (r_seq, r_ack, r_flags, wnd), record s { tcp_rcv_wnd = wnd })

pub process_segment : (seq ack flags : ℕ) (payload : List ℕ) → Socket → Option Reply × Socket
process_segment seq ack flags payload s =
    keep_window (on_segment s.tcp_state seq ack flags payload s)

-- What a read ends with: the bytes it has copied, or an error number.
pub data ReadResult : Type 0 where
  copied : List ℕ → ReadResult
  failed : ℕ → ReadResult

-- A read of `len` bytes from a buffer that is not empty, on a connection whose addresses are set, and
-- the answer that tells the remote side of the room.
pub copy_out : (len : ℕ) → Socket → ReadResult × Option Reply × Socket
copy_out len s =
    let n = min len (length s.tcp_recv_buf) in
    let drained = record s { tcp_recv_buf = drop n s.tcp_recv_buf } in
    let new_buf_len = length drained.tcp_recv_buf in
    let new_wnd = rcv_wnd new_buf_len in
    let updated = record drained { tcp_rcv_wnd = new_wnd } in
    let should_send_wnd_update =
      (new_buf_len == 0)
      || ((ltb s.tcp_rcv_wnd 32768 && leb 32768 new_wnd)
          || (((s.tcp_rcv_wnd == 0) && ltb 0 new_wnd) || leb 16384 (new_wnd - s.tcp_rcv_wnd))) in
    if ltb 0 n
    then (if should_send_wnd_update && is_established s.tcp_state
        then (
          copied (take n s.tcp_recv_buf),
          some (s.tcp_snd_nxt, s.tcp_rcv_nxt, tcp_ack, new_wnd),
          updated,
        )
        else (copied (take n s.tcp_recv_buf), none, drained))
    else (copied [], none, s)

-- What a read of an empty buffer returns at once, by the error that is kept and the state; `none`
-- waits.
abbrev pub empty_result : (nonblocking : Bool) (so_error : ℕ) → TcpState → Option ReadResult
empty_result nonblocking so_error close_wait = some (copied [])
empty_result nonblocking so_error time_wait = some (copied [])
empty_result nonblocking so_error closed = some (failed (if so_error == 0 then 104 else so_error))
empty_result nonblocking so_error _ = if nonblocking then some (failed 11) else none

-- A look at the socket, under its lock; `none` goes to sleep.
pub try_read : (nonblocking : Bool) (len : ℕ) → Socket → Option (ReadResult × Option Reply × Socket)
try_read nonblocking len s =
    let empty : Option (ReadResult × Option Reply × Socket) =
      elim (empty_result nonblocking s.so_error s.tcp_state) [
        | some r ↦ some (r, none, s)
        | none ↦ none
      ] in
    if length s.tcp_recv_buf == 0 then empty else some (copy_out len s)

-- The loop of `read`; `wakes` are the sockets that it finds after its sleeps, and `none` says that it
-- sleeps on after the last of them.
pub read_loop :
    (nonblocking : Bool) (len : ℕ) (wakes : List Socket)
    → Socket
    → Option (ReadResult × Option Reply × Socket)
read_loop nonblocking len [] s = try_read nonblocking len s
read_loop nonblocking len (w ∷ ws) s =
    let rest = read_loop nonblocking len ws w in
    elim (try_read nonblocking len s) [ some done ↦ some done | none ↦ rest ]

pub read :
    (nonblocking : Bool) (len : ℕ) (wakes : List Socket)
    → Socket
    → Option (ReadResult × Option Reply × Socket)
read nonblocking len wakes s =
    let rest = read_loop nonblocking len wakes s in
    if is_closed s.tcp_state then some (failed 104, none, s) else rest
