-- ===== src/Server/Tests/Accounts.antt =====
-- Passwords, accounts, histories and files at concrete inputs.
use smallchat.Base.{
  ◌≡◌, refl, ◌⊎◌, true, some, List, [], ◌∷◌, Bytes, codes, arith, lookup, nat_eq, bytes_eq,
}
use smallchat.Server.Account.{login}
use smallchat.Server.Account.Passwords.{login_guarded}
use smallchat.Server.History.{room_history, or_empty}
use smallchat.Server.History.Bounds.{IsBounded}
use smallchat.Server.History.Reach.{LeavesBounded, run-IsBounded}
use smallchat.Server.Line.{Input, run}
use smallchat.Server.Password.{hash_password, verify_password, xor_derive}
use smallchat.Server.Password.Check.{verify-hash}
use smallchat.Server.Password.Check.Xor.{verify_only, reveal, reveal-hash}
use smallchat.Server.Registry.Same.{Same}
use smallchat.Server.State.{left}
use smallchat.Server.Tests.Data.{env, ann, one_client}
use smallchat.Server.Users.{load_users, save_users}
use smallchat.Server.Users.RoundTrip.{load_users-save_users}
use smallchat.Std.Stream.{next_word, rest_of_line}

abbrev salt : Bytes
salt = 1 ∷ 255 ∷ []

abbrev stored : Bytes
stored = codes "01ff:609c"

hash_run : hash_password xor_derive (codes "ab") salt ≡ some stored
unfolding hash_password xor_derive
hash_run = refl

check_run : verify_password xor_derive (codes "ab") stored ≡ some true
check_run = verify-hash xor_derive (codes "ab") salt stored (ground arith) hash_run

verify_only_example : codes "ab" ≡ codes "ab"
verify_only_example =
    verify_only (codes "ab") (codes "ab") salt stored (ground arith) (ground arith) (ground arith)
      hash_run check_run

reveal-hash_example : reveal stored ≡ some (codes "ab")
reveal-hash_example = reveal-hash (codes "ab") salt stored (ground arith) (ground arith) hash_run

abbrev bob_in : Bytes
bob_in = codes " bob ab"

known_run : lookup (next_word bob_in).0 one_client.users ≡ some stored
unfolding lookup next_word
known_run = refl

login_guarded_example :
    Same one_client (left (login env 4 ann bob_in one_client))
    ⊎ (verify_password env.derive (rest_of_line (next_word bob_in).1) stored ≡ some true)
login_guarded_example = login_guarded env 4 ann bob_in one_client stored known_run

abbrev to_hall : Bytes
to_hall = codes " hall x"

abbrev two_users : List (Bytes × Bytes)
two_users = (codes "ann", codes "01:2a") ∷ (codes "bob", stored) ∷ []

load_users-save_users_example : load_users (some (save_users two_users)) [] ≡ (two_users, true)
unfolding lookup
load_users-save_users_example = load_users-save_users two_users (ground arith) (refl, (refl, tt))

empty-IsBounded : IsBounded one_client
unfolding room_history or_empty lookup
empty-IsBounded = record { global = omega arith; rooms = λ room. omega arith }

run-IsBounded_example : LeavesBounded (run (Input.line env 4 (codes "/w ann hi") ∷ []) one_client)
run-IsBounded_example =
    run-IsBounded (Input.line env 4 (codes "/w ann hi") ∷ []) one_client empty-IsBounded
