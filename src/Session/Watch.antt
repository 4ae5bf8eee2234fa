-- ===== src/Session/Watch.antt =====
-- The sockets that epoll watches in tun2http/session.c, and the sessions that they belong to.
pub mod Tcp
pub mod Others
pub mod Packets
pub mod Udp
pub mod Dispatch
pub mod Sockets
pub mod Events
pub mod Rounds
pub mod Loop
use nroxy.Prelude.{
  ℕ, ◌≡◌, ◌⊎◌, Bool, true, false, ◌||◌, Option, none, some, List, [], ◌∷◌, ◌==◌, if◌then◌else◌,
}
use nroxy.Os.{close, epoll_add, Trace}
use nroxy.Net.Session.{NgSession}
use nroxy.Session.Events.{is_own, has_socket}
use nroxy.Session.Ends.{Shut}

-- A socket is watched from `epoll_ctl` with `EPOLL_CTL_ADD` on, until it is closed.
abbrev pub watched : ℕ → Trace → Bool
watched w [] = false
watched w (epoll_add sock _ ∷ tr) = if sock == w then true else watched w tr
watched w (close sock ∷ tr) = if sock == w then false else watched w tr
watched w (_ ∷ tr) = watched w tr

abbrev pub holds : ℕ → List NgSession → Bool
holds w [] = false
holds w (s ∷ rest) = has_socket w s || holds w rest

-- A watched socket belongs to a session.
abbrev pub IsHeld : ℕ → List NgSession → Trace → Type 0
IsHeld w sessions tr = (watched w tr ≡ false) ⊎ (holds w sessions ≡ true)

-- What an operation on one session does: where a socket is watched after it, it was watched before,
-- and it is the session's as it was before.
abbrev pub Keeps : ℕ → Option ℕ → Trace → Option ℕ → Trace → Type 0
Keeps w before tr after tr' =
    (watched w tr' ≡ false) ⊎ ((watched w tr ≡ true) × (is_own w after ≡ is_own w before))

-- Every session has no socket where `Shut` says so.
abbrev pub AllShut : List NgSession → Type 0
AllShut [] = Unit
AllShut (s ∷ rest) = Shut s × AllShut rest

-- What an operation on the sessions does: a socket that is watched after it belongs to a session, or it
-- was watched before and belonged to none.
abbrev pub Carries : ℕ → List NgSession → Trace → List NgSession → Trace → Type 0
Carries w sessions tr after tr' =
    (watched w tr' ≡ false)
    ⊎ ((holds w after ≡ true) ⊎ ((watched w tr ≡ true) × (holds w sessions ≡ false)))

-- The same of an operation that may leave the bounds of what is defined.
abbrev pub Good : ℕ → List NgSession → Trace → Option (List NgSession) → Trace → Type 0
Good w sessions tr none tr' = Unit
Good w sessions tr (some after) tr' = AllShut after × Carries w sessions tr after tr'

-- The same of a search, which calls nothing of this kind where it fails.
abbrev pub Found : ℕ → List NgSession → Trace → Option (List NgSession) → Trace → Type 0
Found w sessions tr none tr' = watched w tr' ≡ watched w tr
Found w sessions tr (some after) tr' = AllShut after × Carries w sessions tr after tr'

-- The same, with a flag beside the sessions.
abbrev pub GoodFlag : ℕ → List NgSession → Trace → Option (List NgSession × Bool) → Trace → Type 0
GoodFlag w sessions tr none tr' = Unit
GoodFlag w sessions tr (some (after, flag)) tr' = AllShut after × Carries w sessions tr after tr'
