-- ===== src/Tcp/Connection.antt =====
-- An established connection that receives segments and is read from: kernel/src/net/tcp.rs,
-- `process_segment`, and kernel/src/net/socket.rs, `read`.
use kontsnor_os.Prelude.{
  ℕ, ◌+◌, ◌-◌, ◌<◌, ◌≤◌, ◌^◌, ◌≡◌, refl, ap, ◌∙◌, true, false, Bool-cases, inl, inr, List, Option,
  some, ltb, if◌then◌else◌, length, arith,
}
use kontsnor_os.Tcp.{
  Socket, Reply, established, tcp_max_recv_buf, tcp_rst, tcp_fin, tcp_ack, has, rcv_wnd, ack_of,
  accept_data, on_established, on_segment, keep_window, process_segment,
}
use kontsnor_os.Tcp.Sequence.{seq_at}
use kontsnor_os.Tcp.Stream.{Sits}
use kontsnor_os.Tcp.Drain.{Holds, Drained}
use kontsnor_os.Tcp.Accept.{accept_data-Accepted}

-- What a segment does before its data is looked at, and after.
abbrev pub acknowledge : (ack flags : ℕ) → Socket → Socket
acknowledge ack flags s = if has flags tcp_ack then record s { tcp_snd_una = ack } else s

abbrev pub advertise : Socket → Socket
advertise s = record s { tcp_rcv_wnd = rcv_wnd (length s.tcp_recv_buf) }

-- On an established connection a segment with data and neither of the flags RST and FIN goes the way
-- of its data, and the answer acknowledges what has come.
process_segment-accept :
    (seq ack flags : ℕ) (payload : List ℕ) (s : Socket)
    → s.tcp_state ≡ established
    → has flags tcp_rst ≡ false
    → has flags tcp_fin ≡ false
    → 0 < length payload
    → ◌≡◌ {A = Option Reply × Socket} (process_segment seq ack flags payload s) (
      some (ack_of (accept_data seq payload (acknowledge ack flags s))),
      advertise (accept_data seq payload (acknowledge ack flags s)),
    )
unfolding process_segment on_segment on_established keep_window
process_segment-accept seq ack flags payload s st rst fin full =
    let some_data : ltb 0 (length payload) ≡ true = ground (arith, full) in
    let step : ◌≡◌ {A = Option Reply × Socket} (on_established seq ack flags payload s) (
      some (ack_of (accept_data seq payload (acknowledge ack flags s))),
      accept_data seq payload (acknowledge ack flags s),
    ) =
      rw (rst, fin, some_data, on_established) refl in
    ap (λ state. keep_window (on_segment state seq ack flags payload s)) st ∙ ap keep_window step

module _ (i : ℕ) (stream : List ℕ) where
  Holds-acknowledge :
      (gone : List ℕ) (nxt ack flags : ℕ) (s : Socket)
      → Holds i stream gone nxt s
      → Holds i stream gone nxt (acknowledge ack flags s)
        × ((acknowledge ack flags s).tcp_state ≡ s.tcp_state)
        × ((acknowledge ack flags s).tcp_snd_nxt ≡ s.tcp_snd_nxt)
        × ((acknowledge ack flags s).tcp_recv_buf ≡ s.tcp_recv_buf)
  Holds-acknowledge gone nxt ack flags s h = elim (Bool-cases (has flags tcp_ack)) [
    | inl e ↦ rw e (
      record {
        expects = h.expects;
        within = h.within;
        got = h.got;
        queued = h.queued;
        room = h.room;
      },
      refl,
      refl,
      refl,
    )
    | inr e ↦ rw e (h, refl, refl, refl)
  ]

  -- What a segment of data does to a receiver, and what it answers.
  pub process_segment-Accepted :
      (gone : List ℕ) (nxt p ack flags : ℕ) (payload : List ℕ) (s : Socket)
      → length stream < 2 ^ 31
      → Holds i stream gone nxt s
      → s.tcp_state ≡ established
      → has flags tcp_rst ≡ false
      → has flags tcp_fin ≡ false
      → 0 < length payload
      → Sits stream p payload
      → let (reply, s') = process_segment (seq_at i p) ack flags payload s in
        ((nxt' : ℕ) × (nxt ≤ nxt')
          × Holds i stream gone nxt' s'
          × (p ≤ nxt
              → nxt < p + length payload
              → length s.tcp_recv_buf + (p + length payload - nxt) ≤ tcp_max_recv_buf
              → (p + length payload ≤ nxt') × Drained s'))
        × (s'.tcp_state ≡ established)
        × (reply ≡ some (s.tcp_snd_nxt, s'.tcp_rcv_nxt, tcp_ack, rcv_wnd (length s'.tcp_recv_buf)))
  process_segment-Accepted gone nxt p ack flags payload s low h st rst fin full sits =
      let s1 = acknowledge ack flags s in
      let (h1, st1, sn1, buf1) = Holds-acknowledge gone nxt ack flags s h in
      let (nxt', le, h', st', sn', fresh) =
        accept_data-Accepted i stream low gone nxt p payload s1 h1 sits in
      let len1 : length s1.tcp_recv_buf ≡ length s.tcp_recv_buf = ap length buf1 in
      let a = accept_data (seq_at i p) payload s1 in
      rw (process_segment-accept (seq_at i p) ack flags payload s st rst fin full) (
        (
          nxt',
          le,
          record {
            expects = h'.expects;
            within = h'.within;
            got = h'.got;
            queued = h'.queued;
            room = h'.room;
          },
          λ x y z. fresh x y (omega (arith, z, len1)),
        ),
        st' ∙ st1 ∙ st,
        ap (λ z. some (z, a.tcp_rcv_nxt, tcp_ack, rcv_wnd (length a.tcp_recv_buf))) (sn' ∙ sn1),
      )

  -- Let a receiver hold all bytes before `nxt` of a stream shorter than 2^31 bytes, and let a segment
  -- with neither of the flags RST and FIN carry a stretch of the stream that has the byte at `nxt`, and
  -- whose new bytes find room. Then the receiver comes to hold, in order, the bytes of the segment and
  -- those that were queued behind them, until no entry of the queue fits on or the next one finds no
  -- room; and the answer acknowledges all that it holds and gives the room that is left as its window.
  pub process_segment_advances :
      (gone : List ℕ) (nxt p ack flags : ℕ) (payload : List ℕ) (s : Socket)
      → length stream < 2 ^ 31
      → Holds i stream gone nxt s
      → s.tcp_state ≡ established
      → has flags tcp_rst ≡ false
      → has flags tcp_fin ≡ false
      → Sits stream p payload
      → p ≤ nxt
      → nxt < p + length payload
      → length s.tcp_recv_buf + (p + length payload - nxt) ≤ tcp_max_recv_buf
      → let (reply, s') = process_segment (seq_at i p) ack flags payload s in
        (nxt' : ℕ) × (p + length payload ≤ nxt')
        × Holds i stream gone nxt' s'
        × Drained s'
        × (reply ≡ some (s.tcp_snd_nxt, seq_at i nxt', tcp_ack, rcv_wnd (length s'.tcp_recv_buf)))
  process_segment_advances gone nxt p ack flags payload s low h st rst fin sits le lt room =
      let ((nxt', up, h', fresh), st', answer) =
        process_segment-Accepted gone nxt p ack flags payload s low h st rst fin
          (omega (arith, le, lt)) sits in
      let (all, drained) = fresh le lt room in
      let s' = (process_segment (seq_at i p) ack flags payload s).1 in
      (
        nxt',
        all,
        h',
        drained,
        answer
            ∙ ap (λ z. some (s.tcp_snd_nxt, z, tcp_ack, rcv_wnd (length s'.tcp_recv_buf)))
                h'.expects,
      )
