-- ===== src/Timeout/Scale.antt =====
-- How the timeouts of tun2http/tcp.c, udp.c and icmp.c shrink with the number of sessions.
use nroxy.Prelude.{ℕ, ◌-◌, ◌*◌, ◌/◌, ◌≤◌, ◌<◌, ◌≡◌, ap, ◌∙◌, arith}
use nroxy.Prelude.Int.{pos}
use nroxy.Timeout.{scale_timeout}

ratio-le : (s m : ℕ) → 0 < m → s ≤ m → s * 100 / m ≤ 100
ratio-le s m h k = grind arith

ratio_mono : (r s m : ℕ) → 0 < m → r ≤ s → r * 100 / m ≤ s * 100 / m
ratio_mono r s m h k = grind arith

scale_timeout_lem :
    (b s m : ℕ) → s * 100 / m ≤ 100 → scale_timeout b s m ≡ pos (b * (100 - s * 100 / m) / 100)
unfolding scale_timeout
scale_timeout_lem b s m h = ground arith

scaled-le : (b r s m : ℕ) → 100 - s ≤ 100 - r → b * (100 - s) / 100 ≤ b * (100 - r) / 100
scaled-le b r s m h = grind arith

scaled_bound : (b q : ℕ) → q ≤ 100 → b * (100 - q) / 100 ≤ b
scaled_bound b q h = grind arith

full_ratio : (m : ℕ) → 0 < m → m * 100 / m ≡ 100
full_ratio m h = grind arith

full_scaled : (b q : ℕ) → q ≡ 100 → b * (100 - q) / 100 ≡ 0
full_scaled b q e = rw e (omega arith)

none_ratio : (m : ℕ) → 0 < m → 0 * 100 / m ≡ 0
none_ratio m h = grind arith

none_scaled : (b m : ℕ) → 0 < m → b * (100 - 0 * 100 / m) / 100 ≡ b
none_scaled b m h = rw (none_ratio m h) (omega arith)

-- Where there are at most `m` sessions, the timeout is a number of seconds and at most the base, more
-- sessions never make it longer, with none it is the base, and with `m` sessions it is 0.
pub scale_timeout_bounds :
    (b r s m : ℕ)
    → 0 < m
    → r ≤ s
    → s ≤ m
    → (i : ℕ) × ((j : ℕ) × ((scale_timeout b s m ≡ pos i)
          × ((scale_timeout b r m ≡ pos j)
              × ((i ≤ j)
                  × ((j ≤ b) × ((scale_timeout b 0 m ≡ pos b) × (scale_timeout b m m ≡ pos 0)))))))
scale_timeout_bounds b r s m h p q =
    let full = full_ratio m h in
    (
      b * (100 - s * 100 / m) / 100,
      (
        b * (100 - r * 100 / m) / 100,
        (
          scale_timeout_lem b s m (ratio-le s m h q),
          (
            scale_timeout_lem b r m (ratio-le r m h (omega arith)),
            (
              scaled-le b (r * 100 / m) (s * 100 / m) m (omega (arith, ratio_mono r s m h p)),
              (
                scaled_bound b (r * 100 / m) (ratio-le r m h (omega arith)),
                (
                  scale_timeout_lem b 0 m (ratio-le 0 m h (omega arith))
                      ∙ ap pos (none_scaled b m h),
                  scale_timeout_lem b m m (omega arith) ∙ ap pos (full_scaled b (m * 100 / m) full),
                ),
              ),
            ),
          ),
        ),
      ),
    )
