-- ===== src/Server/Registry/Once/Sent.antt =====
-- src/server.cpp: how often broadcast sends to a socket.
use smallchat.Base.{
  ℕ, ◌+◌, ◌≡◌, refl, ap, true, false, ◌&&◌, equal, List, [], ◌∷◌, ◌++◌, map, Bytes, arith, eqb,
  eqb_iff, lookup, nat_eq, if◌then◌else◌,
}
use smallchat.Server.Line.{Input, run}
use smallchat.Server.Registry.Once.{has_key, are_distinct, is_single}
use smallchat.Server.Registry.Once.Steps.{run-is_single}
use smallchat.Server.Send.{broadcast}
use smallchat.Server.State.{ClientInfo, Event, sends, Server, left}

unfoldable pub is_to : ℕ → Bytes → Event → ℕ
is_to fd frame (sends k m) = if eqb k fd && equal m frame then 1 else 0
is_to fd frame event = 0

-- How often a frame has been sent to a socket.
unfoldable pub times : ℕ → Bytes → List Event → ℕ
unfolding is_to
times fd frame [] = 0
times fd frame (event ∷ out) = is_to fd frame event + times fd frame out

times-append :
    (fd : ℕ) (f : Bytes) (a b : List Event) → times fd f (a ++ b) ≡ times fd f a + times fd f b
unfolding times
times-append fd f [] b = omega arith
times-append fd f (e ∷ a) b = omega (arith, times-append fd f a b)

abbrev to_each : Bytes → List (ℕ × ClientInfo) → List Event
to_each frame m = map (λ k. sends k frame) (map (λ entry. entry.0) m)

times-none :
    (fd : ℕ) (f frame : Bytes) (m : List (ℕ × ClientInfo))
    → has_key fd m ≡ false
    → times fd f (to_each frame m) ≡ 0
unfolding times has_key lookup is_to
times-none fd f frame [] h = refl
times-none fd f frame ((k, c) ∷ m) h = ground (arith, times-none fd f frame m)

times-to_each :
    (fd : ℕ) (f frame : Bytes) (m : List (ℕ × ClientInfo))
    → are_distinct m ≡ true
    → times fd f (to_each frame m) ≡ (if has_key fd m && equal frame f then 1 else 0)
unfolding times are_distinct has_key lookup is_to
times-to_each fd f frame [] h = refl
times-to_each fd f frame ((k, c) ∷ m) h = ground (
  arith,
  times-to_each fd f frame m,
  times-none fd f frame m,
  eqb_iff k fd,
  ap (λ j. has_key j m),
)

module _ (fd : ℕ) (f frame : Bytes) (s : Server) where
  broadcast-times_single :
      is_single s ≡ true
      → times fd f (broadcast frame s).out
        ≡ times fd f s.out + (if has_key fd s.clients && equal frame f then 1 else 0)
  unfolding broadcast is_single times is_to
  broadcast-times_single h = grind (arith, times-append fd f, times-to_each fd f frame s.clients h)

none-is_single : (s : Server) → s.clients ≡ [] → is_single s ≡ true
unfolding is_single are_distinct
none-is_single s e = ap are_distinct e

-- In the state behind any inputs of a server that began without clients, broadcast sends its message
-- once to each socket that is in clients_, and to no other socket, and sends no other frame: for every
-- socket and every frame, the frame goes to the socket once more if the socket is in clients_ and the
-- frame is the message, and else as often as before.
pub broadcast-times :
    (is : List Input) (s : Server) (fd : ℕ) (message frame : Bytes)
    → s.clients ≡ []
    → times fd frame (broadcast message (left (run is s))).out
      ≡ times fd frame (left (run is s)).out
        + (if has_key fd (left (run is s)).clients && equal message frame then 1 else 0)
broadcast-times is s fd message frame e =
    broadcast-times_single fd frame message (left (run is s))
      (run-is_single is s (none-is_single s e))
