-- ===== src/Server/Admin/Silence.antt =====
-- src/server.cpp: /mute, and what handleClient makes of the lines of the client that is muted.
use smallchat.Base.{
  ℕ, ◌+◌, ◌*◌, ◌≤◌, ◌<◌, ◌≡◌, refl, ◌∙◌, ap, true, false, some, Bytes, arith, is_empty, lookup,
  lookup-insert, nat_eq, bytes_eq, eqb_iff, Option-cases, inl, inr,
}
use smallchat.Server.Admin.{mute, muted, mute_minutes, clamp_minutes, find_target}
use smallchat.Server.Messages.{handle_plain, allowed, still_muted, say}
use smallchat.Server.Send.{broadcast, put_client, get_client_by_socket}
use smallchat.Server.State.{ClientInfo, Server, Env}
use smallchat.Std.Decimal.{ℤ, pos, negsuc, stoi}
use smallchat.Std.Stream.{next_word, rest_of_line}

clamp_minutes-bounds : (n : ℤ) → (1 ≤ clamp_minutes (some n)) × (clamp_minutes (some n) ≤ 60)
unfolding clamp_minutes
clamp_minutes-bounds (pos n) = ground arith
clamp_minutes-bounds (negsuc n) = ground arith

mute_minutes-bounds : (time : Bytes) → (1 ≤ mute_minutes time) × (mute_minutes time ≤ 60)
unfolding mute_minutes
mute_minutes-bounds time = elim (Option-cases (stoi time)) [
  | inl none_read ↦ unfold clamp_minutes in ground (arith, none_read)
  | inr (n, read) ↦ ground (arith, read, clamp_minutes-bounds n)
]

-- The client behind a /mute that ends at this time.
abbrev pub silenced : ClientInfo → ℕ → ClientInfo
silenced target until = record target { is_muted = true; mute_end_time = until }

broadcast-client :
    (fd : ℕ) (frame : Bytes) (s : Server)
    → lookup fd (broadcast frame s).clients ≡ lookup fd s.clients
unfolding broadcast
broadcast-client fd frame s = ground arith

find_target-found {ℓ} :
    {A : Type ℓ} (name : Bytes) (s : Server) (key : ℕ) (target : ClientInfo)
    → lookup name s.name_to_socket ≡ some key
    → lookup key s.clients ≡ some target
    → (missing : A) (found : ℕ → ClientInfo → A)
    → find_target name s missing found ≡ found key target
unfolding find_target
find_target-found name s key target known there missing found = rw (known, there, find_target) refl

module _ (later : Env) (key : ℕ) (d : ClientInfo) (v : Server)
    (deliver : ClientInfo → Server → Server) where
  allowed_early :
      lookup key v.clients ≡ some d
      → d.is_logged_in ≡ true
      → d.is_muted ≡ true
      → later.now ≤ d.mute_end_time
      → allowed later key v deliver ≡ still_muted key v
  unfolding allowed get_client_by_socket
  allowed_early found inside quiet early = ground arith

  allowed_late :
      lookup key v.clients ≡ some d
      → d.is_logged_in ≡ true
      → d.is_muted ≡ true
      → d.mute_end_time < later.now
      → allowed later key v deliver ≡ deliver d (put_client key (record d { is_muted = false }) v)
  unfolding allowed get_client_by_socket
  allowed_late found inside quiet late = ground arith

-- Until when: the minutes behind the name after the time of the command.
abbrev pub until : Env → Bytes → ℕ
until env args = env.now + mute_minutes (rest_of_line (next_word args).1) * env.minute

module _ (env : Env) (fd key : ℕ) (c target : ClientInfo) (args : Bytes) (s : Server) where
  muted-client :
      (name : Bytes) (minutes : ℕ)
      → lookup key (muted env fd key target name minutes s).clients
        ≡ some (silenced target (env.now + minutes * env.minute))
  unfolding muted
  muted-client name minutes =
      grind (arith, broadcast-client, lookup-insert key key _ s.clients, eqb_iff key key)

  mute-muted :
      c.is_admin ≡ true
      → is_empty (next_word args).0 ≡ false
      → lookup (next_word args).0 s.name_to_socket ≡ some key
      → lookup key s.clients ≡ some target
      → mute env fd c args s
        ≡ muted env fd key target
            (next_word args).0
            (mute_minutes (rest_of_line (next_word args).1))
            s
  unfolding mute
  mute-muted admin named known there =
      rw (admin, named)
        (find_target-found (next_word args).0 s key target known there _ (λ k d.
          muted env fd k d (next_word args).0 (mute_minutes (rest_of_line (next_word args).1)) s))

  abbrev after_mute : Server
  after_mute = mute env fd c args s

  silenced-client :
      c.is_admin ≡ true
      → is_empty (next_word args).0 ≡ false
      → lookup (next_word args).0 s.name_to_socket ≡ some key
      → lookup key s.clients ≡ some target
      → lookup key after_mute.clients ≡ some (silenced target (until env args))
  silenced-client admin named known there =
      ap (λ v. lookup key v.clients) (mute-muted admin named known there)
      ∙ muted-client (next_word args).0 (mute_minutes (rest_of_line (next_word args).1))

  -- /mute of an administrator for the name of a client that is logged in: the mute is for 1 to 60
  -- minutes; the next plain line of that client, if nothing comes in between, leads to an error and
  -- nothing else up to the end of the mute, and behind it is said as any other, with the mute taken off.
  pub mute-until :
      c.is_admin ≡ true
      → is_empty (next_word args).0 ≡ false
      → lookup (next_word args).0 s.name_to_socket ≡ some key
      → lookup key s.clients ≡ some target
      → target.is_logged_in ≡ true
      → ((1 ≤ mute_minutes (rest_of_line (next_word args).1))
          × (mute_minutes (rest_of_line (next_word args).1) ≤ 60))
        × ((later : Env) (line : Bytes)
            → (later.now ≤ until env args
                → handle_plain later key line after_mute ≡ still_muted key after_mute)
              × (until env args < later.now
                  → handle_plain later key line after_mute
                    ≡ say later key line (silenced target (until env args)) (
                        put_client key
                          (record (silenced target (until env args)) { is_muted = false })
                          after_mute)))
  unfolding handle_plain
  mute-until admin named known there inside =
      let found = silenced-client admin named known there in
      (
        mute_minutes-bounds (rest_of_line (next_word args).1),
        λ later line. (
          λ early.
              allowed_early later key (silenced target (until env args)) after_mute
                (say later key line) found inside refl early,
          λ late.
              allowed_late later key (silenced target (until env args)) after_mute
                (say later key line) found inside refl late,
        ),
      )
