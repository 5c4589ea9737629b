-- ===== src/Tcp/Drain.antt =====
-- The loop of `process_segment` (kernel/src/net/tcp.rs) that moves queued segments to the receive
-- buffer.
use kontsnor_os.Prelude.{
  ℕ, zero, suc, ◌+◌, ◌-◌, ◌<◌, ◌≤◌, ◌^◌, ◌≡◌, refl, sym, ap, ◌∙◌, true, Bool-cases, Option-cases,
  ◌⊎◌, inl, inr, List, ◌++◌, none, some, ltb, leb, ◌==◌, if◌then◌else◌, length, length-append,
  length-drop, drop, take, arith,
}
use mathlib.Core.Path.{subst}
use mathlib.Core.List.{append_assoc}
use kontsnor_os.Prelude.Word.{wrapping_add32, wrapping_sub32}
use kontsnor_os.Tcp.{
  Socket, OooQueue, tcp_max_recv_buf, before, is_match, find_match, remove, prune, drain,
}
use kontsnor_os.Tcp.Sequence.{seq_at, seq_at-add, seq_at-sub, before-seq_at, ==-seq_at}
use kontsnor_os.Tcp.Stream.{Sits, Sits-drop, Sits-extends}
use kontsnor_os.Tcp.Queue.{
  Queued, Queued-find, Queued-remove, Queued-prune, find_match-test, is_match-cases,
  find_match-prune, length-remove,
}

-- The bytes of `v` under the number `k` that lie before `cur_nxt`, as the loop counts them.
abbrev pub overlap_of : (k cur_nxt : ℕ) → ℕ
overlap_of k cur_nxt = if k == cur_nxt then 0 else wrapping_sub32 cur_nxt k

-- Either no entry fits on, or there is no room for the rest of the one that does.
abbrev pub Drained : Socket → Type 0
Drained s =
    (find_match s.tcp_rcv_nxt s.tcp_ooo_queue ≡ none)
    ⊎ ((k : ℕ) × (v : List ℕ) × (find_match s.tcp_rcv_nxt s.tcp_ooo_queue ≡ some (k, v))
        × (tcp_max_recv_buf < length s.tcp_recv_buf + (length v - overlap_of k s.tcp_rcv_nxt)))

-- The state after the removal of an entry, and after its bytes are taken.
abbrev pub without : ℕ → Socket → Socket
without k s = record s { tcp_ooo_queue = remove k s.tcp_ooo_queue }

abbrev pub taking : ℕ → List ℕ → Socket → Socket
taking k v s =
    let chunk = drop (overlap_of k s.tcp_rcv_nxt) v in
    record (without k s) {
      tcp_recv_buf = s.tcp_recv_buf ++ chunk;
      tcp_rcv_nxt = wrapping_add32 s.tcp_rcv_nxt (length chunk);
    }

-- The four ways a round can go.
data Round (fuel : ℕ) (s : Socket) : Type 0 where
  ended :
      find_match s.tcp_rcv_nxt s.tcp_ooo_queue ≡ none
      → drain (suc fuel) s ≡ record s { tcp_ooo_queue = prune s.tcp_rcv_nxt s.tcp_ooo_queue }
      → Round fuel s
  skipped :
      (k : ℕ) (v : List ℕ)
      → find_match s.tcp_rcv_nxt s.tcp_ooo_queue ≡ some (k, v)
      → drain (suc fuel) s ≡ drain fuel (without k s)
      → Round fuel s
  took :
      (k : ℕ) (v : List ℕ)
      → find_match s.tcp_rcv_nxt s.tcp_ooo_queue ≡ some (k, v)
      → 0 < length v - overlap_of k s.tcp_rcv_nxt
      → length s.tcp_recv_buf + (length v - overlap_of k s.tcp_rcv_nxt) ≤ tcp_max_recv_buf
      → drain (suc fuel) s ≡ drain fuel (taking k v s)
      → Round fuel s
  full :
      (k : ℕ) (v : List ℕ)
      → find_match s.tcp_rcv_nxt s.tcp_ooo_queue ≡ some (k, v)
      → tcp_max_recv_buf < length s.tcp_recv_buf + (length v - overlap_of k s.tcp_rcv_nxt)
      → drain (suc fuel) s ≡ s
      → Round fuel s

round : (fuel : ℕ) (s : Socket) → Round fuel s
unfolding drain
round fuel s = elim (Option-cases (find_match s.tcp_rcv_nxt s.tcp_ooo_queue)) [
  | inl e ↦ ended e (rw (e, drain) refl)
  | inr ((k, v), e) ↦
      let overlap = overlap_of k s.tcp_rcv_nxt in
      elim (Bool-cases (ltb 0 (length v - overlap))) [
        | inr l ↦ skipped k v e (rw (e, l, drain) refl)
        | inl l ↦
            elim (Bool-cases
              (leb (length s.tcp_recv_buf + (length v - overlap)) tcp_max_recv_buf)) [
                | inl r ↦
                    took k v e (ground (arith, l)) (ground (arith, r)) (rw (e, l, r, drain) refl)
                | inr r ↦ full k v e (ground (arith, r)) (rw (e, l, r, drain) refl)
              ]
      ]
]

-- With more rounds than there are entries the loop ends, and it ends at such a state.
pub drain-Drained : (fuel : ℕ) (s : Socket) → length s.tcp_ooo_queue < fuel → Drained (drain fuel s)
drain-Drained zero s h = absurd (omega (arith, h))
drain-Drained (suc fuel) s h = elim (round fuel s) [
  | ended e d ↦ rw d (inl (find_match-prune s.tcp_rcv_nxt s.tcp_ooo_queue e))
  | skipped k v e d ↦
      let shorter = length-remove s.tcp_rcv_nxt k v s.tcp_ooo_queue e in
      rw d (drain-Drained fuel (without k s) (omega (arith, shorter, h)))
  | took k v e l r d ↦
      let shorter = length-remove s.tcp_rcv_nxt k v s.tcp_ooo_queue e in
      rw d (drain-Drained fuel (taking k v s) (omega (arith, shorter, h)))
  | full k v e r d ↦ rw d (inr (k, v, e, r))
]

module _ (i : ℕ) (stream gone : List ℕ) where
  -- A receiver that has all bytes before the position `nxt`, those in `gone` read already.
  pub record Holds (nxt : ℕ) (s : Socket) : Type 0 where
    pub expects : s.tcp_rcv_nxt ≡ seq_at i nxt
    pub within : nxt ≤ length stream
    pub got : gone ++ s.tcp_recv_buf ≡ take nxt stream
    pub queued : Queued i stream s.tcp_ooo_queue
    pub room : length s.tcp_recv_buf ≤ tcp_max_recv_buf

  -- An entry that matches begins at the position `nxt` or before it.
  overlap-match :
      (nxt p k : ℕ) (v : List ℕ)
      → length stream < 2 ^ 31
      → nxt ≤ length stream
      → p ≤ length stream
      → k ≡ seq_at i p
      → is_match (seq_at i nxt) k v ≡ true
      → (p ≤ nxt) × (overlap_of k (seq_at i nxt) ≡ nxt - p)
  overlap-match nxt p k v low n le at m =
      let lp : p < 2 ^ 31 = omega (arith, le, low) in
      let ln : nxt < 2 ^ 31 = omega (arith, n, low) in
      let same : (k == seq_at i nxt) ≡ (p == nxt) =
        ap (λ z. z == seq_at i nxt) at ∙ ==-seq_at i p nxt lp ln in
      let behind : before k (seq_at i nxt) ≡ ltb p nxt =
        ap (λ z. before z (seq_at i nxt)) at ∙ before-seq_at i p nxt lp ln in
      elim (is_match-cases (seq_at i nxt) k v m) [
        | inl e ↦
            let eq : p ≡ nxt = let e' : (p == nxt) ≡ true = sym same ∙ e in ground (arith, e') in
            (omega (arith, eq), rw e (omega (arith, eq)))
        | inr (e, b) ↦
            let lt : p < nxt = let b' : ltb p nxt ≡ true = sym behind ∙ b in ground (arith, b') in
            (
              omega (arith, lt),
              rw e (
                  ap (wrapping_sub32 (seq_at i nxt)) at
                  ∙ seq_at-sub i p nxt (omega (arith, lt)) ln),
            )
      ]

  -- What the loop has done to a receiver that holds all bytes before `nxt`.
  abbrev pub Advanced : (nxt : ℕ) (s s' : Socket) → Type 0
  Advanced nxt s s' =
      (nxt' : ℕ) × (nxt ≤ nxt')
      × Holds nxt' s'
      × (s'.tcp_state ≡ s.tcp_state)
      × (s'.tcp_snd_nxt ≡ s.tcp_snd_nxt)

  -- The next bytes of the stream come to the buffer, and the queue changes to another.
  pub Holds-extend :
      (nxt : ℕ) (chunk : List ℕ) (q : OooQueue) (s : Socket)
      → Sits stream nxt chunk
      → length s.tcp_recv_buf + length chunk ≤ tcp_max_recv_buf
      → Queued i stream q
      → Holds nxt s
      → Holds (nxt + length chunk) (record s {
        tcp_recv_buf = s.tcp_recv_buf ++ chunk;
        tcp_rcv_nxt = wrapping_add32 s.tcp_rcv_nxt (length chunk);
        tcp_ooo_queue = q;
      })
  Holds-extend nxt chunk q s sits fits queued h = record {
    expects = ap (λ z. wrapping_add32 z (length chunk)) h.expects ∙ seq_at-add i nxt (length chunk);
    within = sits.0;
    got =
        sym (append_assoc gone s.tcp_recv_buf chunk)
        ∙ ap (λ l. l ++ chunk) h.got
        ∙ Sits-extends stream nxt chunk sits;
    queued = queued;
    room = rw (length-append s.tcp_recv_buf chunk) fits;
  }

  pub Holds-queue :
      (nxt : ℕ) (q : OooQueue) (s : Socket)
      → Queued i stream q
      → Holds nxt s
      → Holds nxt (record s { tcp_ooo_queue = q })
  Holds-queue nxt q s queued h = record {
    expects = h.expects;
    within = h.within;
    got = h.got;
    queued = queued;
    room = h.room;
  }

  taking-Holds :
      (nxt k : ℕ) (v : List ℕ) (s : Socket)
      → length stream < 2 ^ 31
      → find_match s.tcp_rcv_nxt s.tcp_ooo_queue ≡ some (k, v)
      → 0 < length v - overlap_of k s.tcp_rcv_nxt
      → length s.tcp_recv_buf + (length v - overlap_of k s.tcp_rcv_nxt) ≤ tcp_max_recv_buf
      → Holds nxt s
      → Advanced nxt s (taking k v s)
  taking-Holds nxt k v s low e some_left fits h =
      let (p, at, sits) = Queued-find i stream s.tcp_rcv_nxt k v s.tcp_ooo_queue e h.queued in
      let m : is_match (seq_at i nxt) k v ≡ true =
        ap (λ z. is_match z k v) (sym h.expects)
        ∙ find_match-test s.tcp_rcv_nxt k v s.tcp_ooo_queue e in
      let o = overlap_of k s.tcp_rcv_nxt in
      let (le, over) = overlap-match nxt p k v low h.within (omega (arith, sits.0)) at m in
      let over' : o ≡ nxt - p = ap (overlap_of k) h.expects ∙ over in
      let whole : p + o ≡ nxt = omega (arith, over', le) in
      let placed : Sits stream nxt (drop o v) =
        subst (λ q. Sits stream q (drop o v)) whole
          (Sits-drop stream p o v (omega (arith, some_left)) sits) in
      (
        nxt + length (drop o v),
        omega arith,
        Holds-extend nxt (drop o v) (remove k s.tcp_ooo_queue) s placed (rw (length-drop o v) fits)
            (Queued-remove i stream k s.tcp_ooo_queue h.queued) h,
        refl,
        refl,
      )

  pub drain-Holds :
      (fuel nxt : ℕ) (s : Socket)
      → length stream < 2 ^ 31
      → Holds nxt s
      → Advanced nxt s (drain fuel s)
  unfolding drain
  drain-Holds zero nxt s low h = (nxt, omega arith, h, refl, refl)
  drain-Holds (suc fuel) nxt s low h = elim (round fuel s) [
    | ended e d ↦ rw d (
      nxt,
      omega arith,
      Holds-queue nxt _ s (Queued-prune i stream s.tcp_rcv_nxt s.tcp_ooo_queue h.queued) h,
      refl,
      refl,
    )
    | skipped k v e d ↦ rw d (
        drain-Holds fuel nxt (without k s) low
          (Holds-queue nxt _ s (Queued-remove i stream k s.tcp_ooo_queue h.queued) h))
    | took k v e l r d ↦
        let (n, le, h', st, sn) = taking-Holds nxt k v s low e l r h in
        let (n', le', h'', st', sn') = drain-Holds fuel n (taking k v s) low h' in
        rw d (n', omega (arith, le, le'), h'', st' ∙ st, sn' ∙ sn)
    | full k v e r d ↦ rw d (nxt, omega arith, h, refl, refl)
  ]
