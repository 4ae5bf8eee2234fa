-- ===== src/Tcp/Socket/Progress.antt =====
-- What the forwarding loop of tun2http/tcp.c counts.
use nroxy.Prelude.{
  ℕ, ◌+◌, ◌-◌, ◌≤◌, ◌<◌, ◌≡◌, refl, ap, ◌∙◌, inl, inr, Bool, true, false, not, List, [], ◌∷◌, arith,
  ◌==◌, if◌then◌else◌, Bool-cases, u16, u32, sub_u32, All,
}
use nroxy.Prelude.Int.{ℤ, pos, negsuc}
use nroxy.Os.{Kernel, Trace, send}
use nroxy.Net.Session.{TcpSession, Segment, is_listen}
use nroxy.Tcp.Monitor.{can_forward}
use nroxy.Tcp.Write.{write_rst}
use nroxy.Tcp.Socket.Forward.{clamp_sent, outgoing, advance, forward_data, is_retry}

-- A segment whose sent part is part of it, and whose length is a `uint16_t`.
abbrev pub IsSegment : Segment → Type 0
IsSegment s = (s.sent ≤ s.len) × (s.len < 65536) × (s.seq < 4294967296)

-- What is left of a queue: some segments are gone, and the first may be sent in part.
abbrev pub bytes_left : List Segment → ℕ
bytes_left [] = 0
bytes_left (s ∷ rest) = s.len - s.sent + bytes_left rest

clamped : (result : ℤ) (len : ℕ) (n : ℕ) → clamp_sent result len ≡ pos n → n ≤ len
unfolding clamp_sent
clamped result len n e = ground arith

-- The session `t'` has counted what has left the queue.
abbrev pub Counts : TcpSession → List Segment → TcpSession → Type 0
Counts t queue t' =
    (t.sent ≤ t'.sent)
    × (t'.sent - t.sent + bytes_left t'.forward ≡ bytes_left queue)
    × (t'.remote_seq ≡ u32 (t.remote_seq + (t'.sent - t.sent)))

-- The first segment comes next.
abbrev IsNext : TcpSession → Segment → Type 0
IsNext t s = (u32 (s.seq + s.sent) ≡ t.remote_seq) × IsSegment s

advance-part :
    (t : TcpSession) (s : Segment) (rest : List Segment) (n : ℕ)
    → IsNext t s
    → n ≤ s.len - s.sent
    → Counts t (s ∷ rest) (advance t s rest n)
unfolding advance
advance-part t s rest n next h = ground arith

advance-then :
    (t : TcpSession) (s : Segment) (rest : List Segment) (n : ℕ) (t' : TcpSession)
    → IsNext t s
    → n ≤ s.len - s.sent
    → (s.len == u16 (s.sent + n)) ≡ true
    → Counts (advance t s rest n) rest t'
    → Counts t (s ∷ rest) t'
unfolding advance
advance-then t s rest n t' next h whole c = ground arith

advance-rest :
    (t : TcpSession) (s : Segment) (rest : List Segment) (n : ℕ)
    → (s.len == u16 (s.sent + n)) ≡ true
    → ((advance t s rest n).forward ≡ rest)
      × ((advance t s rest n).state ≡ t.state)
      × ((advance t s rest n).remote_seq < 4294967296)
unfolding advance
advance-rest t s rest n whole = ground arith

module _ (k : Kernel) where
  -- The loop's body after `send`.
  abbrev after_send :
      ℕ → ℕ → Segment → List Segment → TcpSession → Bool → Trace → ℤ → (TcpSession × Bool) × Trace
  after_send sock buffer_size s rest t fwd tr (negsuc _) =
      if is_retry (k.errno tr)
      then ((t, fwd), tr)
      else let (t', tr') = write_rst k t tr in ((t', fwd), tr')
  after_send sock buffer_size s rest t fwd tr (pos n) = elim (s.len == u16 (s.sent + n)) [
    | true ↦ forward_data k sock (sub_u32 buffer_size n) rest (advance t s rest n) true tr
    | false ↦ ((advance t s rest n, true), tr)
  ]

  kept :
      (t : TcpSession) (queue : List Segment)
      → t.forward ≡ queue
      → t.remote_seq < 4294967296
      → Counts t queue t
  kept t queue q r = ground arith

  reset :
      (t : TcpSession) (queue : List Segment) (tr : Trace)
      → t.forward ≡ queue
      → t.remote_seq < 4294967296
      → is_listen t.state ≡ false
      → Counts t queue (write_rst k t tr).0
  unfolding write_rst
  reset t queue tr q r l = ground arith

  after_send-Counts :
      (sock buffer_size : ℕ) (s : Segment) (rest : List Segment) (t : TcpSession) (fwd : Bool)
      (tr : Trace) (c : ℤ)
      → t.forward ≡ s ∷ rest
      → t.remote_seq < 4294967296
      → is_listen t.state ≡ false
      → IsNext t s
      → All IsSegment rest
      → ((n : ℕ) → c ≡ pos n → n ≤ s.len - s.sent)
      → ((size : ℕ) (u : TcpSession) (fwd' : Bool) (tr' : Trace)
          → u.forward ≡ rest
          → u.remote_seq < 4294967296
          → is_listen u.state ≡ false
          → Counts u rest (forward_data k sock size rest u fwd' tr').0.0)
      → Counts t (s ∷ rest) (after_send sock buffer_size s rest t fwd tr c).0.0
  after_send-Counts sock buffer_size s rest t fwd tr (negsuc e) q r l next h fits later =
      elim (Bool-cases (is_retry (k.errno tr))) [
        | inl again ↦ rw (again, after_send) (kept t (s ∷ rest) q r)
        | inr failed ↦ rw (failed, after_send) (reset t (s ∷ rest) tr q r l)
      ]
  after_send-Counts sock buffer_size s rest t fwd tr (pos n) q r l next h fits later =
      elim (Bool-cases (s.len == u16 (s.sent + n))) [
        | inl whole ↦
            rw (whole, after_send)
              (let (gone, same, small) = advance-rest t s rest n whole in
                advance-then t s rest n
                  (forward_data k sock (sub_u32 buffer_size n) rest (advance t s rest n) true
                    tr).0.0
                  next (fits n refl) whole
                  (later (sub_u32 buffer_size n) (advance t s rest n) true tr gone small
                    (ap is_listen same ∙ l)))
        | inr part ↦ rw (part, after_send) (advance-part t s rest n next (fits n refl))
      ]

  -- Bytes are counted, acknowledged and taken from the queue together, on every way through the
  -- loop: what a session has counted as sent is what has left its queue, and the number of the
  -- next byte has advanced as far. The session does not listen, and each segment in the queue is
  -- shorter than 65536 bytes and sent at most to its end.
  pub forward_data-Counts :
      (sock buffer_size : ℕ) (queue : List Segment) (t : TcpSession) (fwd : Bool) (tr : Trace)
      → t.forward ≡ queue
      → t.remote_seq < 4294967296
      → is_listen t.state ≡ false
      → All IsSegment queue
      → Counts t queue (forward_data k sock buffer_size queue t fwd tr).0.0
  unfolding forward_data
  forward_data-Counts sock buffer_size [] t fwd tr q r l h = kept t [] q r
  forward_data-Counts sock buffer_size (s ∷ rest) t fwd tr q r l (hs, hr) =
      elim (Bool-cases (can_forward t s buffer_size)) [
        | inr wait ↦ rw (wait, forward_data) (kept t (s ∷ rest) q r)
        | inl go ↦
            rw (go, forward_data)
              (let sent = (k.bytes_sent tr sock (outgoing t s) (not s.psh)) in
                let tr' = send sock (outgoing t s) (not s.psh) ∷ tr in
                after_send-Counts sock buffer_size s rest t fwd tr'
                  (clamp_sent sent (sub_u32 s.len s.sent)) q r l (ground arith) hr
                  (λ n e. let small = clamped sent (sub_u32 s.len s.sent) n e in omega arith)
                  (λ size u fwd' tr''.
                    λ q' r' l'. forward_data-Counts sock size rest u fwd' tr'' q' r' l' hr))
      ]
