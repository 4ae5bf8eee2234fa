-- ===== src/Tests/Sessions.antt =====
-- The list of sessions at concrete sessions.
use nroxy.Prelude.{ℕ, ◌≤◌, ◌≡◌, refl, inl, none, List, [], ◌∷◌, ◌++◌, arith}
use nroxy.Prelude.Int.{pos}
use nroxy.Net.Session.{NgSession, UdpNode, udp_session, active, blocked}
use nroxy.Tests.World.{quiet, udp_node, three_sessions, settings, client_address, server_address}
use nroxy.Udp.Check.{check_udp_session}
use nroxy.Udp.Life.{UdpInv, Onward, start, next, check, UdpReach-keeps}
use nroxy.Timeout.{scale_timeout}
use nroxy.Timeout.Scale.{scale_timeout_bounds}
use nroxy.Handle.{handle_ip}
use nroxy.Handle.Limit.{Sized, handle_ip_limit}

-- A SYN of the client to another port of the server, in a packet of 40 bytes.
abbrev syn_packet : List ℕ
syn_packet =
    0x45 ∷ 0 ∷ 0 ∷ 40 ∷ 0 ∷ 0 ∷ 0 ∷ 0 ∷ 64 ∷ 6 ∷ 0 ∷ 0 ∷ client_address
    ++ (server_address
        ++ (0x9C ∷ 0x40 ∷ 0 ∷ 22 ∷ 0 ∷ 0 ∷ 0 ∷ 9 ∷ 0 ∷ 0 ∷ 0 ∷ 0 ∷ 0x50 ∷ 2 ∷ 1 ∷ 0 ∷ 0 ∷ 0 ∷ 0 ∷ 0
            ∷ []))

handle_ip_limit_example :
    Sized three_sessions
      (handle_ip quiet settings (pos 10001) syn_packet 400 400 three_sessions []).0
handle_ip_limit_example =
    handle_ip_limit quiet settings (pos 10001) syn_packet 400 400 three_sessions [] (omega arith)
      refl

-- A blocked session that has been left alone for long.
abbrev blocked_session : NgSession
blocked_session =
    udp_session
      (record udp_node { socket = none; udp = record (udp_node.udp) { time = 5; state = blocked } })

scale_timeout_bounds_example :
    (i : ℕ) × ((j : ℕ) × ((scale_timeout 3600 50 100 ≡ pos i)
        × ((scale_timeout 3600 10 100 ≡ pos j)
            × ((i ≤ j)
                × ((j ≤ 3600)
                    × ((scale_timeout 3600 0 100 ≡ pos 3600)
                        × (scale_timeout 3600 100 100 ≡ pos 0)))))))
scale_timeout_bounds_example =
    scale_timeout_bounds 3600 10 50 100 (omega arith) (omega arith) (omega arith)

abbrev idle_node : UdpNode
idle_node = record udp_node { udp = record (udp_node.udp) { time = 5 } }

UdpReach-keeps_example :
    UdpInv (check_udp_session quiet idle_node 3 100 []).0.0
    × Onward active (check_udp_session quiet idle_node 3 100 []).0.0.udp.state
UdpReach-keeps_example = UdpReach-keeps quiet (inl (refl, refl)) (next start (check 3 100))
