-- ===== src/Session/Idle.antt =====
-- Sessions that are left alone are removed, by the checks of tun2http/session.c.
use nroxy.Prelude.{
  ℕ, ◌+◌, ◌*◌, ◌/◌, ◌≤◌, ◌<◌, ◌≡◌, refl, Bool, true, false, ◌&&◌, not, List, [], ◌∷◌, arith, ◌==◌,
  if◌then◌else◌, All,
}
use nroxy.Prelude.Int.{ℤ, pos, negsuc, pos_part, neg_part, sub_ℕ, ◌-ℤ◌, ◌*ℤ◌}
use nroxy.Os.{Kernel, Trace, time}
use nroxy.Net.Session.{
  TcpSession, TcpNode, UdpNode, IcmpNode, NgSession, tcp_session, udp_session, icmp_session,
  is_over, is_close,
}
use nroxy.Timeout.{
  scale_timeout, base_tcp_timeout, get_tcp_timeout, get_udp_timeout, get_icmp_timeout, has_expired,
  div_int,
}
use nroxy.Tcp.Check.{check_tcp_session, expire_tcp, finish_tcp}
use nroxy.Udp.Check.{is_active, is_finishing, finish_udp, check_udp_session}
use nroxy.Icmp.Check.{check_icmp_session}
use nroxy.Session.Count.{is_live}
use nroxy.Session.Pass.{check_session, check_sessions, shorten, session_timeout}

sub_part-le : (a c : ℕ) → pos_part (sub_ℕ a c) ≤ a
sub_part-le a c = ground arith

mul-le : (b p : ℕ) → p ≤ 100 → b * p ≤ b * 100
mul-le b p h = grind arith

times-le : (b : ℕ) (y : ℤ) → pos_part y ≤ 100 → pos_part (pos b *ℤ y) ≤ b * 100
unfolding ◌*ℤ◌
times-le b y h = omega (
  arith,
  mul-le b (pos_part y) h,
  sub_part-le (b * pos_part y + 0 * neg_part y) (b * neg_part y + 0 * pos_part y),
)

div_int-le : (b : ℕ) (x : ℤ) → pos_part x ≤ b * 100 → pos_part (div_int x 100) ≤ b
div_int-le b (pos n) h = grind arith
div_int-le b (negsuc n) h = ground arith

minus-le : (p : ℕ) → pos_part (pos 100 -ℤ pos p) ≤ 100
unfolding ◌-ℤ◌
minus-le p = ground arith

-- A timeout is never longer than its base.
scale_timeout-le : (b s m : ℕ) → pos_part (scale_timeout b s m) ≤ b
unfolding scale_timeout
scale_timeout-le b s m =
    div_int-le b (pos b *ℤ (pos 100 -ℤ pos (s * 100 / m)))
      (times-le b (pos 100 -ℤ pos (s * 100 / m)) (minus-le (s * 100 / m)))

expired_of_late :
    (since b s m now : ℕ) → since + b < now → has_expired since (scale_timeout b s m) now ≡ true
unfolding has_expired
expired_of_late since b s m now h = grind (arith, scale_timeout-le b s m)

-- When the session was last active.
abbrev pub time_of : NgSession → ℕ
time_of (tcp_session s) = s.tcp.time
time_of (udp_session s) = s.udp.time
time_of (icmp_session s) = s.icmp.time

base-le : (s : TcpNode) → base_tcp_timeout s.tcp.state ≤ 3600
base-le s = ground arith

-- A session that an early check leaves is waiting to be deleted since then.
abbrev IsWaiting : ℕ → ℕ → NgSession × Bool → Type 0
IsWaiting early late (s, true) = Unit
IsWaiting early late (tcp_session s, false) = (is_close s.tcp.state ≡ true) × (s.tcp.time ≤ late)
IsWaiting early late (udp_session s, false) =
    (is_active s.udp.state ≡ false) × ((is_finishing s.udp.state ≡ false) × (s.udp.time ≤ late))
IsWaiting early late (icmp_session s, false) = ◌≡◌ {A = Bool} true false

module _ (k : Kernel) (early late : ℕ) (after_early : (tr : Trace) → early ≤ k.now tr)
    (before_late : (tr : Trace) → k.now tr ≤ late) (count maxsessions : ℕ) where
  expire_tcp-is_over :
      (t : TcpSession) (timeout : ℤ) (now : ℕ) (tr : Trace)
      → has_expired t.time timeout now ≡ true
      → let after = expire_tcp k t timeout now tr in
        (is_over after.0.state ≡ true) × (after.0.time ≡ t.time)
  unfolding expire_tcp
  expire_tcp-is_over t timeout now tr h = ground arith

  finish_tcp-is_close :
      (s : TcpNode) (tr : Trace)
      → is_over s.tcp.state ≡ true
      → s.tcp.time ≤ late
      → let after = finish_tcp k s tr in
        (is_close after.0.tcp.state ≡ true) × (after.0.tcp.time ≤ late)
  unfolding finish_tcp
  finish_tcp-is_close s tr h t = grind (arith, before_late)

  tcp_expired :
      (s : TcpNode) (tr : Trace)
      → s.tcp.time + 3600 < early
      → has_expired s.tcp.time (get_tcp_timeout s.tcp count maxsessions) (k.now tr) ≡ true
  unfolding get_tcp_timeout
  tcp_expired s tr h =
      expired_of_late s.tcp.time (base_tcp_timeout s.tcp.state) count maxsessions (k.now tr)
        (omega (arith, base-le s, after_early tr))

  tcp_waits :
      (s : TcpNode) (tr : Trace)
      → s.tcp.time + 3600 < early
      → let after = (check_tcp_session k s count maxsessions tr).0 in
        IsWaiting early late (tcp_session after.0, after.1)
  unfolding check_tcp_session
  tcp_waits s tr h =
      let timeout = get_tcp_timeout s.tcp count maxsessions in
      let expired = expire_tcp k s.tcp timeout (k.now tr) (time ∷ tr) in
      ground (
        arith,
        expire_tcp-is_over s.tcp timeout (k.now tr) (time ∷ tr) (tcp_expired s tr h),
        finish_tcp-is_close (record s { tcp = expired.0 }) expired.1,
        after_early tr,
        before_late tr,
      )

  udp_expired :
      (s : UdpNode) (tr : Trace)
      → s.udp.time + 3600 < early
      → has_expired s.udp.time (get_udp_timeout s.udp count maxsessions) (k.now tr) ≡ true
  unfolding get_udp_timeout
  udp_expired s tr h =
      expired_of_late s.udp.time (if s.udp.dest == 53 then 15 else 300) count maxsessions (k.now tr)
        (ground (arith, after_early tr))

  udp_waits :
      (s : UdpNode) (tr : Trace)
      → s.udp.time + 3600 < early
      → let after = (check_udp_session k s count maxsessions tr).0 in
        IsWaiting early late (udp_session after.0, after.1)
  unfolding check_udp_session finish_udp
  udp_waits s tr h = grind (arith, udp_expired s tr h, before_late, after_early)

  icmp_waits :
      (s : IcmpNode) (tr : Trace)
      → s.icmp.time + 3600 < early
      → let after = (check_icmp_session k s count maxsessions tr).0 in
        IsWaiting early late (icmp_session after.0, after.1)
  unfolding check_icmp_session get_icmp_timeout
  icmp_waits s tr h = ground (
    arith,
    expired_of_late s.icmp.time 15 count maxsessions (k.now tr) (omega (arith, after_early tr)),
  )

  check_session-IsWaiting :
      (s : NgSession) (tr : Trace)
      → time_of s + 3600 < early
      → IsWaiting early late (check_session k count maxsessions s tr).0
  unfolding check_session
  check_session-IsWaiting (tcp_session s) tr h = tcp_waits s tr h
  check_session-IsWaiting (udp_session s) tr h = udp_waits s tr h
  check_session-IsWaiting (icmp_session s) tr h = icmp_waits s tr h

  kept-AllWaiting :
      (early late : ℕ) (checked : NgSession × Bool) (rest : List NgSession)
      → IsWaiting early late checked
      → All (λ s. IsWaiting early late (s, false)) rest
      → All (λ s. IsWaiting early late (s, false)) (if checked.1 then rest else checked.0 ∷ rest)
  kept-AllWaiting early late (s, true) rest h hs = hs
  kept-AllWaiting early late (s, false) rest h hs = (h, hs)

  check_sessions-AllWaiting :
      (now : ℕ) (sessions : List NgSession) (timeout : ℕ) (tr : Trace)
      → All (λ s. time_of s + 3600 < early) sessions
      → All
          (λ s. IsWaiting early late (s, false))
          (check_sessions k count maxsessions now sessions timeout tr).0.0
  unfolding check_sessions
  check_sessions-AllWaiting now [] timeout tr h = tt
  check_sessions-AllWaiting now (s ∷ rest) timeout tr h =
      let checked = check_session k count maxsessions s tr in
      let s' = checked.0.0 in
      let next =
        if is_live s' && not checked.0.1
        then shorten (session_timeout s' count maxsessions now) timeout
        else timeout in
      kept-AllWaiting early late checked.0 _ (check_session-IsWaiting s tr h.0)
        (check_sessions-AllWaiting now rest next checked.1 h.1)

module _ (k : Kernel) (early late : ℕ) (after_late : (tr : Trace) → late + 300 < k.now tr)
    (count maxsessions : ℕ) where
  waiting_deleted :
      (s : NgSession) (tr : Trace)
      → IsWaiting early late (s, false)
      → (check_session k count maxsessions s tr).0.1 ≡ true
  unfolding check_session check_tcp_session check_udp_session finish_udp
  waiting_deleted (tcp_session s) tr h = ground (arith, after_late tr, h)
  waiting_deleted (udp_session s) tr h = ground (arith, after_late tr, h)
  waiting_deleted (icmp_session s) tr h = ground arith

  waiting_sessions_deleted :
      (now : ℕ) (sessions : List NgSession) (timeout : ℕ) (tr : Trace)
      → All (λ s. IsWaiting early late (s, false)) sessions
      → (check_sessions k count maxsessions now sessions timeout tr).0.0 ≡ []
  unfolding check_sessions
  waiting_sessions_deleted now [] timeout tr h = refl
  waiting_sessions_deleted now (s ∷ rest) timeout tr h =
      let checked = check_session k count maxsessions s tr in
      let s' = checked.0.0 in
      let next =
        if is_live s' && not checked.0.1
        then shorten (session_timeout s' count maxsessions now) timeout
        else timeout in
      ground (arith, waiting_deleted s tr h.0, waiting_sessions_deleted now rest next checked.1 h.1)

-- Sessions that are left alone do not stay. Where every session was last active more than an hour
-- before a pass of checks, made while the clock is between `early` and `late`, and another pass is
-- made more than five minutes after `late`, no session is left, in whatever states they were,
-- however many sessions are counted and whatever else the kernel does.
pub idle_sessions_removed :
    (k₁ k₂ : Kernel) (early late count₁ count₂ maxsessions now₁ now₂ timeout₁ timeout₂ : ℕ)
    (sessions : List NgSession) (tr₁ tr₂ : Trace)
    → ((tr : Trace) → early ≤ k₁.now tr)
    → ((tr : Trace) → k₁.now tr ≤ late)
    → ((tr : Trace) → late + 300 < k₂.now tr)
    → All (λ s. time_of s + 3600 < early) sessions
    → let left = (check_sessions k₁ count₁ maxsessions now₁ sessions timeout₁ tr₁).0.0 in
      (check_sessions k₂ count₂ maxsessions now₂ left timeout₂ tr₂).0.0 ≡ []
idle_sessions_removed k₁ k₂ early late count₁ count₂ maxsessions now₁ now₂ timeout₁ timeout₂
      sessions tr₁ tr₂ lower upper later idle =
    waiting_sessions_deleted k₂ early late later count₂ maxsessions now₂ _ timeout₂ tr₂ (
      check_sessions-AllWaiting k₁ early late lower upper count₁ maxsessions now₁ sessions timeout₁
        tr₁ idle)
