-- ===== src/Tcp/Stream/Drains.antt =====
-- The forwarding loop of tun2http/tcp.c empties a queue that nothing is missing from.
use nroxy.Prelude.{
  ℕ, ◌+◌, ◌-◌, ◌<◌, ◌≡◌, refl, ap, ◌∙◌, ◌≢◌, Bool, true, false, not, List, [], ◌∷◌, arith, ◌==◌,
  length, u16, u32, sub_u32, All,
}
use nroxy.Prelude.Int.{pos}
use nroxy.Os.{Kernel, Trace, send}
use nroxy.Net.Session.{TcpSession, Segment}
use nroxy.Tcp.Monitor.{can_forward}
use nroxy.Tcp.Socket.Forward.{clamp_sent, outgoing, advance, forward_data}
use nroxy.Tcp.Socket.Progress.{IsSegment, bytes_left}
use nroxy.Tcp.Stream.{IsPart, length-stretch}
use nroxy.Tcp.Stream.Delivers.{outgoing-stretch}

-- Each segment goes on where the one before it ends, the first at this number.
abbrev pub IsContiguous : ℕ → List Segment → Type 0
IsContiguous seq [] = Unit
IsContiguous seq (s ∷ rest) = (u32 (s.seq + s.sent) ≡ seq) × IsContiguous (u32 (s.seq + s.len)) rest

module _ (stream : ℕ → ℕ) (k : Kernel)
    (eager : (tr : Trace) (sock : ℕ) (bytes : List ℕ) (more : Bool)
      → k.bytes_sent tr sock bytes more ≡ pos (length bytes))
    (sock : ℕ) where
  all_counted :
      (s : Segment) (t : TcpSession) (tr : Trace)
      → IsPart stream s
      → (t.dest == 80) ≡ false
      → u32 (s.seq + s.sent) ≡ t.remote_seq
      → clamp_sent (k.bytes_sent tr sock (outgoing t s) (not s.psh)) (sub_u32 s.len s.sent)
        ≡ pos (s.len - s.sent)
  unfolding clamp_sent
  all_counted s t tr p other next =
      let size : length (outgoing t s) ≡ s.len - s.sent =
        ap length (outgoing-stretch stream t s p other next)
        ∙ length-stretch stream t.remote_seq (s.len - s.sent) in
      rw (eager tr sock (outgoing t s) (not s.psh), size) (ground (arith, p))

  advance_all :
      (t : TcpSession) (s : Segment) (rest : List Segment)
      → IsSegment s
      → ((s.len == u16 (s.sent + (s.len - s.sent))) ≡ true)
        × ((advance t s rest (s.len - s.sent)).forward ≡ rest)
        × ((advance t s rest (s.len - s.sent)).remote_seq ≡ u32 (s.seq + s.len))
        × ((advance t s rest (s.len - s.sent)).dest ≡ t.dest)
  unfolding advance
  advance_all t s rest p = ground (arith, p)

  -- Where `send` takes all that it is given, the port is not 80, and the queue holds parts of the
  -- client's stream that follow each other from the next number on, fewer bytes than the buffer has
  -- room for: one run of the loop forwards the whole queue, and says that it has forwarded something
  -- unless the queue was empty.
  pub forward_data_drains :
      (size : ℕ) (queue : List Segment) (t : TcpSession) (fwd : Bool) (tr : Trace)
      → t.forward ≡ queue
      → t.dest ≢ 80
      → All (IsPart stream) queue
      → IsContiguous t.remote_seq queue
      → bytes_left queue < size
      → size < 4294967296
      → let after = forward_data k sock size queue t fwd tr in
        (after.0.0.forward ≡ []) × (after.0.1 ≡ (elim queue [ [] ↦ fwd | _ ∷ _ ↦ true ]))
  unfolding forward_data
  forward_data_drains size [] t fwd tr q other ps chain room small = (q, refl)
  forward_data_drains size (s ∷ rest) t fwd tr q other ps chain room small =
      let n = s.len - s.sent in
      let ready : can_forward t s size ≡ true = ground (arith, chain.0, ps.0, room) in
      let elsewhere : (t.dest == 80) ≡ false = ground arith in
      let counted = all_counted s t tr ps.0 elsewhere chain.0 in
      let (whole, gone, moved, same) = advance_all t s rest ps.0.0 in
      let u = advance t s rest n in
      let tr' = send sock (outgoing t s) (not s.psh) ∷ tr in
      let later =
        forward_data_drains (sub_u32 size n) rest u true tr' gone (rw same other) ps.1
          (rw moved chain.1) (omega arith) (omega arith) in
      rw (ready, counted, whole, forward_data) (later.0, later.1 ∙ always rest)
    where
      always : (queue : List Segment) → (elim queue [ [] ↦ true | _ ∷ _ ↦ true ]) ≡ true
      always [] = refl
      always (_ ∷ _) = refl
