-- ===== src/Tests/Loop.antt =====
-- The loop and the life of the relay at concrete calls.
use nroxy.Prelude.{
  ℕ, ◌≡◌, refl, ◌⊎◌, inl, false, Option, none, some, List, [], ◌∷◌, ◌++◌, arith, replicate,
}
use nroxy.Prelude.Int.{ℤ, negsuc}
use nroxy.Os.{Kernel, Trace, received, polled, pipe_ready, tun_ready, socket_ready, write_pipe}
use nroxy.Session.Events.{check_events}
use nroxy.Session.Tun.{tun_loop}
use nroxy.Session.Tun.{check_tun}
use nroxy.Session.Tun.{tun_packet}
use nroxy.Handle.{handle_ip}
use nroxy.Ip.Parse.{parse_ip}
use nroxy.Ip.Parse.{parse_ip4}
use nroxy.Handle.{dispatch}
use nroxy.Handle.{opens_session}
use nroxy.Icmp.Handle.{handle_icmp}
use nroxy.Icmp.Handle.{update_icmp}
use nroxy.Icmp.Handle.{open_icmp_socket}
use nroxy.Icmp.Handle.{send_echo}
use nroxy.Icmp.Handle.{outgoing_echo}
use nroxy.Icmp.Handle.{echo_sum}
use nroxy.Icmp.Packet.{with_id}
use nroxy.Session.Count.{max_sessions}
use nroxy.Tests.World.{quiet, settings, all_events, client_address, server_address, three_sessions}
use nroxy.Session.Count.{count_sessions}
use nroxy.Session.Pass.{monitor_sessions, check_sessions}
use nroxy.Session.Round.{check_round, take_events, round, rounds, begin}
use nroxy.Session.Allowed.{check_allowed}
use nroxy.Session.Stop.{stop_ends_loop}
use nroxy.Session.Idle.{idle_sessions_removed}
use nroxy.Session.Watch.{watched}
use nroxy.Jni.{
  Service, Thread, loaded, jni_init, loop_of, after_loop, jni_start, thread_round, jni_stop,
}
use nroxy.Jni.Life.{start, turn, here, next, Sound}
use nroxy.Jni.Stop.{Reach-Sound, jni_stop_releases}

-- An echo request of the client, and the kernel that delivers it and nothing else.
abbrev echo_request : List ℕ
echo_request =
    0x45 ∷ 0 ∷ 0 ∷ 48 ∷ 0 ∷ 0 ∷ 0 ∷ 0 ∷ 64 ∷ 1 ∷ 0 ∷ 0 ∷ client_address
    ++ (server_address ++ (8 ∷ 0 ∷ 0 ∷ 0 ∷ 0 ∷ 7 ∷ 0 ∷ 1 ∷ replicate 20 0))

abbrev pinging : Kernel
pinging = record quiet {
  polls = λ tr timeout. polled (tun_ready all_events ∷ []);
  tun_read = λ tr. received echo_request;
  tun_waiting = λ tr. 1;
}

abbrev nobody : Trace → List ℕ → ℤ
nobody tr pkt = negsuc 0

abbrev started : Service × Trace
started = jni_start pinging nobody settings (jni_init loaded) []

abbrev or_init : Option Service → Service
or_init none = loaded
or_init (some s) = s

abbrev pinged : Service
pinged = or_init (thread_round pinging nobody started.0 started.1).0

pinged_lem : (thread_round pinging nobody started.0 started.1).0 ≡ some pinged
unfolding jni_init jni_start thread_round after_loop begin check_allowed round monitor_sessions
    count_sessions check_round check_sessions take_events check_events tun_loop check_tun tun_packet
    handle_ip parse_ip parse_ip4 dispatch opens_session handle_icmp update_icmp open_icmp_socket
    send_echo outgoing_echo echo_sum with_id max_sessions
pinged_lem = refl

Reach-Sound_example :
    Sound pinging nobody 5 pinged (thread_round pinging nobody started.0 started.1).1
Reach-Sound_example =
    Reach-Sound pinging nobody 5 (next (next here (start settings)) (turn pinged pinged_lem))

-- The kernel at the time of a stop: the pipe is readable.
abbrev ending : Kernel
ending = record quiet { polls = λ tr timeout. polled (socket_ready 6 all_events ∷ pipe_ready ∷ []) }

abbrev running : Thread
running = record { args = settings; maxsessions = 100; last_check = 4990 }

jni_stop_releases_example :
    let s : Service = record { sessions = three_sessions; thread = some running } in
    let result =
      round ending settings nobody 100 (loop_of three_sessions running) (write_pipe ∷ []) in
    let after = jni_stop ending nobody 1 s [] in
    (result.0 ≡ none)
    ⊎ ((s' : Service) × ((after.0 ≡ some s')
          × ((s'.sessions ≡ []) × ((s'.thread ≡ none) × (watched 5 after.1 ≡ false)))))
jni_stop_releases_example =
    jni_stop_releases ending nobody 5 0 three_sessions running []
      (socket_ready 6 all_events ∷ pipe_ready ∷ [])
      ((tt, (inl (refl, refl), (inl refl, tt))), inl refl) refl refl refl

stop_ends_loop_example :
    rounds ending settings nobody 8 100 (loop_of three_sessions running) []
    ≡ round ending settings nobody 100 (loop_of three_sessions running) []
stop_ends_loop_example =
    stop_ends_loop ending settings nobody 7 100 (loop_of three_sessions running) []
      (socket_ready 6 all_events ∷ pipe_ready ∷ []) refl refl refl

-- The clock an hour and ten minutes after the sessions were active, and some minutes later.
abbrev early_kernel : Kernel
early_kernel = record quiet { now = λ tr. 5000 }

abbrev late_kernel : Kernel
late_kernel = record quiet { now = λ tr. 5500 }

idle_sessions_removed_example :
    let left = (check_sessions early_kernel 3 100 5000 three_sessions 3600 []).0.0 in
    (check_sessions late_kernel 0 100 5500 left 3600 []).0.0 ≡ []
idle_sessions_removed_example =
    idle_sessions_removed early_kernel late_kernel 5000 5000 3 0 100 5000 5500 3600 3600
      three_sessions [] [] (λ tr. omega arith) (λ tr. omega arith) (λ tr. omega arith)
      (omega arith, (omega arith, (omega arith, tt)))
