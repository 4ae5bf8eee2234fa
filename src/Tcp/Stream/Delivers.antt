-- ===== src/Tcp/Stream/Delivers.antt =====
-- What the forwarding loop of tun2http/tcp.c delivers of the client's stream.
use nroxy.Prelude.{
  ℕ, ◌+◌, ◌-◌, ◌≤◌, ◌<◌, ◌≡◌, refl, sym, ap, ◌∙◌, inl, inr, true, false, ◌&&◌, List, [], ◌∷◌, ◌++◌,
  arith, ltb, ◌==◌, Bool-cases, take, drop, u32, sub_u32, All,
}
use nroxy.Net.Sums.{append_assoc}
use nroxy.Os.{Kernel, Trace}
use nroxy.Net.Session.{TcpSession, Segment}
use nroxy.Tcp.Queue.{is_neg, is_pos, insert_segment, place}
use nroxy.Util.Serial.{compare_u32}
use nroxy.Tcp.Socket.Forward.{outgoing}
use nroxy.Tcp.Stream.{
  stretch, IsPart, delivered, stretch_cong, stretch-append, take-stretch, drop-stretch, take-drop,
  take-take,
}

append_nil : (l : List ℕ) → l ++ [] ≡ l
append_nil [] = refl
append_nil (x ∷ l) = ap (λ r. x ∷ r) (append_nil l)

module _ (stream : ℕ → ℕ) where
  -- The part of a segment that is not sent yet.
  unsent_part :
      (s : Segment)
      → IsPart stream s
      → take (s.len - s.sent) (drop s.sent s.bytes)
        ≡ stretch stream (s.seq + s.sent) (s.len - s.sent)
  unsent_part s (seg, enough, same) =
      let total : s.sent + (s.len - s.sent) ≡ s.len = omega (arith, seg.0) in
      take-drop s.sent (s.len - s.sent) s.bytes
      ∙ rw (total, same) (drop-stretch stream s.seq s.sent s.len seg.0)

  -- On other ports than 80 that part is what is sent.
  pub outgoing-stretch :
      (t : TcpSession) (s : Segment)
      → IsPart stream s
      → (t.dest == 80) ≡ false
      → u32 (s.seq + s.sent) ≡ t.remote_seq
      → outgoing t s ≡ stretch stream t.remote_seq (s.len - s.sent)
  unfolding outgoing
  outgoing-stretch t s part other next =
      let short : sub_u32 s.len s.sent ≡ s.len - s.sent = ground (arith, part) in
      rw (other, short)
        (unsent_part s part
          ∙ stretch_cong stream (s.seq + s.sent) t.remote_seq (s.len - s.sent)
              (ground (arith, next)))

  -- Longer data for the same number begins with the same bytes.
  replaced-IsPart :
      (new s : Segment)
      → IsPart stream new
      → IsPart stream s
      → (s.seq == new.seq) ≡ true
      → ltb s.len new.len ≡ true
      → IsPart stream (record s { bytes = new.bytes })
  replaced-IsPart new s (_, enough, same) (seg, _, _) e shorter =
      let le : s.len ≤ new.len = ground arith in
      let at : s.seq ≡ new.seq = ground arith in
      (
        seg,
        omega arith,
        sym (take-take s.len new.len new.bytes le)
            ∙ rw (same, at) (take-stretch stream new.seq s.len new.len le),
      )

  place-IsPart :
      (new s : Segment) (rest : List Segment)
      → IsPart stream new
      → All (IsPart stream) (s ∷ rest)
      → All (IsPart stream) (place new s rest)
  unfolding place
  place-IsPart new s rest p ps = elim (Bool-cases (is_pos (compare_u32 s.seq new.seq))) [
    | inl above ↦ rw above (p, ps)
    | inr after ↦ elim (Bool-cases (s.seq == new.seq && ltb s.len new.len)) [
      | inl longer ↦
          rw (after, longer)
            (replaced-IsPart new s p ps.0 (ground (arith, longer)) (ground (arith, longer)), ps.1)
      | inr other ↦ rw (after, other) ps
    ]
  ]

  pub insert-IsPart :
      (new : Segment) (queue : List Segment)
      → IsPart stream new
      → All (IsPart stream) queue
      → All (IsPart stream) (insert_segment new queue)
  unfolding insert_segment
  insert-IsPart new [] p ps = (p, tt)
  insert-IsPart new (s ∷ rest) p ps = elim (Bool-cases (is_neg (compare_u32 s.seq new.seq))) [
    | inl before ↦ rw before (ps.0, insert-IsPart new rest p ps.1)
    | inr after ↦ rw after (place-IsPart new s rest p ps)
  ]

  module _ (k : Kernel) (sock : ℕ) where
    -- What an operation delivers: the next bytes of the stream, and it moves on as far.
    abbrev pub Delivers : TcpSession → Trace → TcpSession → Trace → Type 0
    Delivers t tr u tr' =
        (n : ℕ) × (delivered k sock tr' ≡ delivered k sock tr ++ stretch stream t.remote_seq n)
        × (u.remote_seq ≡ u32 (t.remote_seq + n))
        × All (IsPart stream) u.forward
        × (u.dest ≡ t.dest)

    pub nothing-Delivers :
        (t : TcpSession) (tr : Trace)
        → t.remote_seq < 4294967296
        → All (IsPart stream) t.forward
        → Delivers t tr t tr
    nothing-Delivers t tr r ps =
        (0, sym (append_nil (delivered k sock tr)), ground (arith, r), ps, refl)

    pub Delivers-trans :
        (t u v : TcpSession) (tr tr' tr'' : Trace)
        → Delivers t tr u tr'
        → Delivers u tr' v tr''
        → Delivers t tr v tr''
    Delivers-trans t u v tr tr' tr'' (m, e, r, _, d) (n, e', r', ps, d') = (
      m + n,
      e'
          ∙ rw (e, r)
              (append_assoc (delivered k sock tr) (stretch stream t.remote_seq m) _
                ∙ ap (λ l. delivered k sock tr ++ l)
                    (ap (λ l. stretch stream t.remote_seq m ++ l)
                        (stretch_cong stream (u32 (t.remote_seq + m)) (t.remote_seq + m) n
                          (omega arith))
                      ∙ stretch-append stream t.remote_seq m n)),
      r' ∙ rw r (omega arith),
      ps,
      d' ∙ d,
    )
