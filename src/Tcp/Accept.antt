-- ===== src/Tcp/Accept.antt =====
-- A segment with data on an established connection (kernel/src/net/tcp.rs, `process_segment`): what
-- it does to a receiver of a stream.
use kontsnor_os.Prelude.{
  ℕ, suc, ◌+◌, ◌-◌, ◌<◌, ◌≤◌, ◌^◌, ◌≡◌, refl, sym, ap, ◌∙◌, true, false, Bool-cases, inl, inr, List,
  [], ◌++◌, ltb, leb, ◌==◌, length, length-drop, drop, arith,
}
use mathlib.Core.Path.{subst}
use kontsnor_os.Prelude.Word.{wrapping_add32, wrapping_sub32}
use kontsnor_os.Tcp.{Socket, tcp_max_recv_buf, before, trim, ooo_used, accept_trimmed, accept_data}
use kontsnor_os.Tcp.Sequence.{seq_at, seq_at-sub, before-seq_at, ==-seq_at}
use kontsnor_os.Tcp.Stream.{Sits, Sits-drop}
use kontsnor_os.Tcp.Queue.{Queued-insert}
use kontsnor_os.Tcp.Drain.{Holds, Drained, Holds-extend, Holds-queue, drain-Holds, drain-Drained}

module _ (i : ℕ) (stream : List ℕ) (low : length stream < 2 ^ 31) where
  -- What `trim` leaves of the stretch `payload` at the position `p` for a receiver that expects the
  -- position `nxt` under the number `cur`.
  data Trimmed (p nxt cur : ℕ) (payload : List ℕ) : Type 0 where
    stale :
        trim (seq_at i p) cur payload ≡ (seq_at i p, [])
        → p + length payload ≤ nxt
        → Trimmed p nxt cur payload
    next :
        (w : List ℕ)
        → trim (seq_at i p) cur payload ≡ (cur, w)
        → Sits stream nxt w
        → nxt + length w ≡ p + length payload
        → Trimmed p nxt cur payload
    ahead :
        trim (seq_at i p) cur payload ≡ (seq_at i p, payload) → nxt < p → Trimmed p nxt cur payload

  trim-Trimmed :
      (p nxt cur : ℕ) (payload : List ℕ)
      → cur ≡ seq_at i nxt
      → nxt ≤ length stream
      → Sits stream p payload
      → Trimmed p nxt cur payload
  unfolding trim
  trim-Trimmed p nxt cur payload e within sits =
      let lp : p < 2 ^ 31 = omega (arith, low, sits.0) in
      let ln : nxt < 2 ^ 31 = omega (arith, low, within) in
      let behind : before (seq_at i p) cur ≡ ltb p nxt =
        ap (before (seq_at i p)) e ∙ before-seq_at i p nxt lp ln in
      elim (Bool-cases (ltb p nxt)) [
        | inl b ↦
            let lt : p < nxt = ground (arith, b) in
            let over : wrapping_sub32 cur (seq_at i p) ≡ nxt - p =
              ap (λ z. wrapping_sub32 z (seq_at i p)) e
              ∙ seq_at-sub i p nxt (omega (arith, lt)) ln in
            let early : before (seq_at i p) cur ≡ true = behind ∙ b in
            let o = wrapping_sub32 cur (seq_at i p) in
            elim (Bool-cases (ltb o (length payload))) [
              | inl c ↦
                  let fits : o ≤ length payload = ground (arith, c) in
                  let whole : p + o ≡ nxt = omega (arith, over, lt) in
                  let len = length-drop o payload in
                  next (drop o payload) (rw (early, c, trim) refl)
                    (subst (λ q. Sits stream q (drop o payload)) whole
                      (Sits-drop stream p o payload fits sits))
                    (omega (arith, len, fits, whole))
              | inr c ↦ stale (rw (early, c, trim) refl) (ground (arith, c, over, lt))
            ]
        | inr b ↦
            let late : before (seq_at i p) cur ≡ false = behind ∙ b in
            elim (Bool-cases (p == nxt)) [
              | inl c ↦
                  let here : p ≡ nxt = ground (arith, c) in
                  next payload
                    (rw (late, trim) (ap (λ z. (z, payload)) (ap (seq_at i) here ∙ sym e)))
                    (subst (λ q. Sits stream q payload) here sits) (omega (arith, here))
              | inr c ↦ ahead (rw (late, trim) refl) (ground (arith, b, c))
            ]
      ]

  -- What a segment with the bytes from the position `p` to before `p + n` has done to a receiver that
  -- holds all bytes before `nxt`: the receiver holds at least these; and if the segment has the next
  -- byte, and its new bytes find room, then the receiver has all of them and those that were queued
  -- behind them, as far as these find room.
  abbrev pub Accepted : (gone : List ℕ) (nxt p n : ℕ) (s s' : Socket) → Type 0
  Accepted gone nxt p n s s' =
      (nxt' : ℕ) × (nxt ≤ nxt')
      × Holds i stream gone nxt' s'
      × (s'.tcp_state ≡ s.tcp_state)
      × (s'.tcp_snd_nxt ≡ s.tcp_snd_nxt)
      × (p ≤ nxt
          → nxt < p + n
          → length s.tcp_recv_buf + (p + n - nxt) ≤ tcp_max_recv_buf
          → (p + n ≤ nxt') × Drained s')

  accept_next :
      (gone : List ℕ) (nxt p n : ℕ) (w : List ℕ) (s : Socket)
      → Holds i stream gone nxt s
      → Sits stream nxt w
      → nxt + length w ≡ p + n
      → Accepted gone nxt p n s (accept_trimmed s.tcp_rcv_nxt w s)
  unfolding accept_trimmed
  accept_next gone nxt p n w s h sits total =
      let same : (s.tcp_rcv_nxt == s.tcp_rcv_nxt) ≡ true = ground arith in
      elim (Bool-cases (ltb 0 (length w))) [
        | inr e ↦
            let empty : length w ≡ 0 = ground (arith, e) in
            rw (e, accept_trimmed)
              (nxt, omega arith, h, refl, refl, λ a b c. absurd (omega (arith, b, total, empty)))
        | inl e ↦ elim (Bool-cases (leb (length s.tcp_recv_buf + length w) tcp_max_recv_buf)) [
          | inr f ↦
              let over : tcp_max_recv_buf < length s.tcp_recv_buf + length w = ground (arith, f) in
              rw (e, same, f, accept_trimmed)
                (
                  nxt,
                  omega arith,
                  h,
                  refl,
                  refl,
                  λ a b c. absurd (omega (arith, b, c, total, over)),
                )
          | inl f ↦
              let fits : length s.tcp_recv_buf + length w ≤ tcp_max_recv_buf = ground (arith, f) in
              let fuel = suc (length s.tcp_ooo_queue) in
              let taken : Socket = record s {
                tcp_recv_buf = s.tcp_recv_buf ++ w;
                tcp_rcv_nxt = wrapping_add32 s.tcp_rcv_nxt (length w);
              } in
              let (nxt', le, h', st, sn) =
                drain-Holds i stream gone fuel (nxt + length w) taken low
                  (Holds-extend i stream gone nxt w s.tcp_ooo_queue s sits fits h.queued h) in
              rw (e, same, f, accept_trimmed)
                (
                  nxt',
                  omega (arith, le),
                  h',
                  st,
                  sn,
                  λ a b c. (omega (arith, le, total), drain-Drained fuel taken (omega arith)),
                )
        ]
      ]

  accept_ahead :
      (gone : List ℕ) (nxt p : ℕ) (payload : List ℕ) (s : Socket)
      → Holds i stream gone nxt s
      → Sits stream p payload
      → nxt < p
      → Accepted gone nxt p (length payload) s (accept_trimmed (seq_at i p) payload s)
  unfolding accept_trimmed
  accept_ahead gone nxt p payload s h sits lt =
      let lp : p < 2 ^ 31 = omega (arith, low, sits.0) in
      let ln : nxt < 2 ^ 31 = omega (arith, low, h.within) in
      let other : (seq_at i p == s.tcp_rcv_nxt) ≡ false =
        ap (λ z. seq_at i p == z) h.expects ∙ ==-seq_at i p nxt lp ln ∙ (ground (arith, lt)) in
      let later : before (seq_at i p) s.tcp_rcv_nxt ≡ false =
        ap (before (seq_at i p)) h.expects ∙ before-seq_at i p nxt lp ln ∙ (ground (arith, lt)) in
      let vain : p ≤ nxt
          → nxt < p + length payload
          → length s.tcp_recv_buf + (p + length payload - nxt) ≤ tcp_max_recv_buf
          → ⊥ =
        λ a b c. omega (arith, a, lt) in
      elim (Bool-cases (ltb 0 (length payload))) [
        | inr e ↦
            rw (e, accept_trimmed) (nxt, omega arith, h, refl, refl, λ a b c. absurd (vain a b c))
        | inl e ↦
            elim (Bool-cases (leb (ooo_used s.tcp_ooo_queue + length payload) tcp_max_recv_buf)) [
              | inr f ↦
                  rw (e, other, later, f, accept_trimmed)
                    (nxt, omega arith, h, refl, refl, λ a b c. absurd (vain a b c))
              | inl f ↦
                  rw (e, other, later, f, accept_trimmed)
                    (
                      nxt,
                      omega arith,
                      Holds-queue i stream gone nxt _ s
                          (Queued-insert i stream (seq_at i p) payload s.tcp_ooo_queue
                            (p, refl, sits) h.queued)
                          h,
                      refl,
                      refl,
                      λ a b c. absurd (vain a b c),
                    )
            ]
      ]

  pub accept_data-Accepted :
      (gone : List ℕ) (nxt p : ℕ) (payload : List ℕ) (s : Socket)
      → Holds i stream gone nxt s
      → Sits stream p payload
      → Accepted gone nxt p (length payload) s (accept_data (seq_at i p) payload s)
  unfolding accept_data
  accept_data-Accepted gone nxt p payload s h sits =
      elim (trim-Trimmed p nxt s.tcp_rcv_nxt payload h.expects h.within sits) [
        | next w e at total ↦
            subst
              (λ (t : ℕ × List ℕ).
                Accepted gone nxt p (length payload) s (accept_trimmed t.0 t.1 s))
              (sym e) (accept_next gone nxt p (length payload) w s h at total)
        | ahead e lt ↦
            subst
              (λ (t : ℕ × List ℕ).
                Accepted gone nxt p (length payload) s (accept_trimmed t.0 t.1 s))
              (sym e) (accept_ahead gone nxt p payload s h sits lt)
        | stale e le ↦
            subst
              (λ (t : ℕ × List ℕ).
                Accepted gone nxt p (length payload) s (accept_trimmed t.0 t.1 s))
              (sym e)
              (unfold accept_trimmed in
                (nxt, omega arith, h, refl, refl, λ a b c. absurd (omega (arith, b, le))))
      ]
