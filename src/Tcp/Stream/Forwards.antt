-- ===== src/Tcp/Stream/Forwards.antt =====
-- The forwarding loop of tun2http/tcp.c delivers the client's stream in order.
use nroxy.Prelude.{
  ℕ, ◌+◌, ◌-◌, ◌≤◌, ◌<◌, ◌≡◌, refl, sym, ap, ◌∙◌, ◌≢◌, inl, inr, Bool, true, false, not, List, [],
  ◌∷◌, ◌++◌, arith, ◌==◌, Bool-cases, length, take, u16, u32, sub_u32, All,
}
use nroxy.Prelude.Int.{pos}
use mathlib.Core.Path.{subst}
use nroxy.Os.{Kernel, Trace, send}
use nroxy.Net.Session.{TcpSession, Segment}
use nroxy.Tcp.Monitor.{can_forward}
use nroxy.Tcp.Queue.{queue_tcp, is_neg}
use nroxy.Util.Serial.{compare_u32}
use nroxy.Tcp.Socket.Forward.{clamp_sent, outgoing, advance, forward_data}
use nroxy.Tcp.Socket.Progress.{IsSegment}
use nroxy.Tcp.Stream.{stretch, IsPart, delivered, length-stretch, take-stretch}
use nroxy.Tcp.Stream.Delivers.{
  outgoing-stretch, insert-IsPart, Delivers, nothing-Delivers, Delivers-trans,
}

module _ (stream : ℕ → ℕ) (k : Kernel)
    (honest : (tr : Trace) (sock : ℕ) (bytes : List ℕ) (more : Bool)
      → (n : ℕ) × (k.bytes_sent tr sock bytes more ≡ pos n) × (n ≤ length bytes))
    (sock : ℕ) where
  -- How much the socket takes of a segment.
  abbrev taken : Segment → TcpSession → Trace → ℕ
  taken s t tr = (honest tr sock (outgoing t s) (not s.psh)).0

  counted :
      (s : Segment) (t : TcpSession) (tr : Trace)
      → IsPart stream s
      → (t.dest == 80) ≡ false
      → u32 (s.seq + s.sent) ≡ t.remote_seq
      → (taken s t tr ≤ s.len - s.sent)
        × (clamp_sent (k.bytes_sent tr sock (outgoing t s) (not s.psh)) (sub_u32 s.len s.sent)
            ≡ pos (taken s t tr))
  unfolding clamp_sent
  counted s t tr p other next =
      let bytes = outgoing t s in
      let (n, sent, fits) = honest tr sock bytes (not s.psh) in
      let size : length bytes ≡ s.len - s.sent =
        ap length (outgoing-stretch stream t s p other next)
        ∙ length-stretch stream t.remote_seq (s.len - s.sent) in
      (omega arith, rw sent (ground (arith, p)))

  advance-Parts :
      (t : TcpSession) (s : Segment) (rest : List Segment) (n : ℕ)
      → All (IsPart stream) (s ∷ rest)
      → n ≤ s.len - s.sent
      → All (IsPart stream) (advance t s rest n).forward
  unfolding advance
  advance-Parts t s rest n (p, ps) h = elim (Bool-cases (s.len == u16 (s.sent + n))) [
    | inl whole ↦ rw whole ps
    | inr part ↦ rw part ((ground (arith, p), p.1, p.2), ps)
  ]

  advance-seq :
      (t : TcpSession) (s : Segment) (rest : List Segment) (n : ℕ)
      → IsSegment s
      → u32 (s.seq + s.sent) ≡ t.remote_seq
      → n ≤ s.len - s.sent
      → ((advance t s rest n).remote_seq ≡ u32 (t.remote_seq + n))
        × ((advance t s rest n).dest ≡ t.dest)
  unfolding advance
  advance-seq t s rest n p next h = ground (arith, p, next)

  same_socket : (sock == sock) ≡ true
  same_socket = ground arith

  -- One `send` of the next segment, and what the code counts of it.
  send-Delivers :
      (s : Segment) (rest : List Segment) (t : TcpSession) (tr : Trace)
      → (t.dest == 80) ≡ false
      → u32 (s.seq + s.sent) ≡ t.remote_seq
      → All (IsPart stream) (s ∷ rest)
      → Delivers stream k sock t tr
          (advance t s rest (taken s t tr))
          (send sock (outgoing t s) (not s.psh) ∷ tr)
  send-Delivers s rest t tr other next (p, ps) =
      let n = taken s t tr in
      let (_, sent, _) = honest tr sock (outgoing t s) (not s.psh) in
      let (fits, _) = counted s t tr p other next in
      let (moved, same) = advance-seq t s rest n p.0 next fits in
      (
        n,
        rw (same_socket, sent)
            (ap (λ l. delivered k sock tr ++ take n l) (outgoing-stretch stream t s p other next)
              ∙ ap (λ l. delivered k sock tr ++ l)
                  (take-stretch stream t.remote_seq n (s.len - s.sent) fits)),
        moved,
        advance-Parts t s rest n (p, ps) fits,
        same,
      )

  advance-rest :
      (t : TcpSession) (s : Segment) (rest : List Segment) (n : ℕ)
      → (s.len == u16 (s.sent + n)) ≡ true
      → ((advance t s rest n).forward ≡ rest) × ((advance t s rest n).remote_seq < 4294967296)
  unfolding advance
  advance-rest t s rest n whole = ground arith

  forward_data-Delivers :
      (size : ℕ) (queue : List Segment) (t : TcpSession) (fwd : Bool) (tr : Trace)
      → t.forward ≡ queue
      → (t.dest == 80) ≡ false
      → t.remote_seq < 4294967296
      → All (IsPart stream) queue
      → let after = forward_data k sock size queue t fwd tr in
        Delivers stream k sock t tr after.0.0 after.1
  unfolding forward_data
  forward_data-Delivers size [] t fwd tr q other r ps =
      nothing-Delivers stream k sock t tr r (rw q tt)
  forward_data-Delivers size (s ∷ rest) t fwd tr q other r ps =
      elim (Bool-cases (can_forward t s size)) [
        | inr blocked ↦
            rw (blocked, forward_data)
              (nothing-Delivers stream k sock t tr r (subst (All (IsPart stream)) (sym q) ps))
        | inl ready ↦
            let next : u32 (s.seq + s.sent) ≡ t.remote_seq = ground (arith, ready) in
            let n = taken s t tr in
            let tr' = send sock (outgoing t s) (not s.psh) ∷ tr in
            let first = send-Delivers s rest t tr other next ps in
            let (fits, clamped) = counted s t tr ps.0 other next in
            rw (ready, clamped, forward_data)
              (elim (Bool-cases (s.len == u16 (s.sent + n))) [
                | inr part ↦ rw (part, forward_data) first
                | inl whole ↦
                    let (gone, small) = advance-rest t s rest n whole in
                    let u = advance t s rest n in
                    let later = forward_data k sock (sub_u32 size n) rest u true tr' in
                    let moved = advance-seq t s rest n ps.0.0 next fits in
                    let elsewhere : (u.dest == 80) ≡ false = rw moved.1 other in
                    rw (whole, forward_data)
                      (Delivers-trans stream k sock t u later.0.0 tr tr' later.1 first (
                        forward_data-Delivers (sub_u32 size n) rest u true tr' gone elsewhere small
                          ps.1))
              ])
      ]

  queue_tcp-Delivers :
      (seq n : ℕ) (psh : Bool) (bytes : List ℕ) (t : TcpSession) (tr : Trace)
      → seq < 4294967296
      → n < 65536
      → n ≤ length bytes
      → take n bytes ≡ stretch stream seq n
      → t.remote_seq < 4294967296
      → All (IsPart stream) t.forward
      → Delivers stream k sock t tr (queue_tcp seq psh bytes n t) tr
  unfolding queue_tcp
  queue_tcp-Delivers seq n psh bytes t tr hs hn enough same r ps =
      elim (Bool-cases (is_neg (compare_u32 seq t.remote_seq))) [
        | inl old ↦ rw (old, queue_tcp) (nothing-Delivers stream k sock t tr r ps)
        | inr fresh ↦
            let new : Segment = record { seq = seq; len = n; sent = 0; psh = psh; bytes = bytes } in
            let part : IsPart stream new = ((omega arith, hn, hs), enough, same) in
            rw (fresh, queue_tcp)
              (let (z, e, m, _, d) = nothing-Delivers stream k sock t tr r ps in
                (z, e, m, insert-IsPart stream new t.forward part ps, d))
      ]

  -- What may happen to the data of a connection: a segment of the client's stream arrives, or what is
  -- queued is forwarded. The segments may come in any order, overlap and come again.
  pub data Flow (t : TcpSession) (tr : Trace) : TcpSession → Trace → Type 0 where
    here : Flow t tr t tr
    arrives :
        {u : TcpSession} {trᵤ : Trace}
        → Flow t tr u trᵤ
        → (seq n : ℕ) (psh : Bool) (bytes : List ℕ) → seq < 4294967296
        → n < 65536
        → n ≤ length bytes
        → take n bytes ≡ stretch stream seq n
        → Flow t tr (queue_tcp seq psh bytes n u) trᵤ
    forwards :
        {u : TcpSession} {trᵤ : Trace}
        → Flow t tr u trᵤ
        → (size : ℕ)
        → Flow t tr
            (forward_data k sock size u.forward u false trᵤ).0.0
            (forward_data k sock size u.forward u false trᵤ).1

  -- Where `send` never fails and takes at most what it is given, and the port is not 80, from an
  -- empty queue: in whatever order the segments of the client's stream arrive, however they overlap
  -- or come again, and whenever queued data is forwarded into a buffer of whatever size, what the
  -- socket has taken is the next bytes of the stream, none of them missing, doubled or changed, as
  -- many as the session's number has advanced; and all that is queued is part of the stream.
  pub Flow-Delivers :
      (t : TcpSession) (tr : Trace) {u : TcpSession} {trᵤ : Trace}
      → t.forward ≡ []
      → t.dest ≢ 80
      → t.remote_seq < 4294967296
      → Flow t tr u trᵤ
      → Delivers stream k sock t tr u trᵤ
  Flow-Delivers t tr empty other r here = nothing-Delivers stream k sock t tr r (rw empty tt)
  Flow-Delivers t tr empty other r (arrives {u} {trᵤ} f seq n psh bytes hs hn enough same) =
      let d = Flow-Delivers t tr empty other r f in
      let small : u.remote_seq < 4294967296 = rw d.2 (omega arith) in
      Delivers-trans stream k sock t u (queue_tcp seq psh bytes n u) tr trᵤ trᵤ d
        (queue_tcp-Delivers seq n psh bytes u trᵤ hs hn enough same small d.3)
  Flow-Delivers t tr empty other r (forwards {u} {trᵤ} f size) =
      let d = Flow-Delivers t tr empty other r f in
      let small : u.remote_seq < 4294967296 = rw d.2 (omega arith) in
      let elsewhere : (u.dest == 80) ≡ false = rw d.4 (ground (arith, other)) in
      let after = forward_data k sock size u.forward u false trᵤ in
      Delivers-trans stream k sock t u after.0.0 tr trᵤ after.1 d
        (forward_data-Delivers size u.forward u false trᵤ refl elsewhere small d.3)
