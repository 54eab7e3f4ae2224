-- ===== src/Server/Registry/Steps.antt =====
-- src/server.cpp: clients_ and name_to_socket_ over the commands that look for a target, and over
-- the end of a client.
use smallchat.Base.{
  List, Bool, true, false, ◌⊎◌, erase, eqb, eqb_iff, lookup-erase, ℕ, ◌≡◌, refl, sym, ap, ◌∙◌, none,
  some, ◌++◌, Bytes, arith, inl, inr, Option-cases, if◌then◌else◌, lookup, nat_eq, bytes_eq,
  is_empty, codes,
}
use smallchat.Codec.Frames.{encode_system_message}
use smallchat.Server.Admin.{mute, unmute, kick, kicked, find_target}
use smallchat.Server.Leave.{remove_client, quit}
use smallchat.Server.Registry.Commands.{
  Leaves, Names, Moves, Sheds, mute_cases, unmute_cases, kick_cases, muted-Same, unmuted-Same,
  remove_client-Sheds,
}
use smallchat.Server.Registry.Same.{Same, broadcast-Same, remove_member-Same}
use smallchat.Server.Registry.Tables.{
  identity, view, IsConsistent, Similar-of_Same, Similar-trans, Similar-IsConsistent,
  Same-IsConsistent, put-Similar, rename-IsConsistent, view-forget, forget-IsConsistent,
  sent-IsConsistent, broadcast-IsConsistent,
}
use smallchat.Server.Rooms.{remove_member}
use smallchat.Server.Send.{broadcast}
use smallchat.Server.State.{ClientInfo, Server, Env}

shed_thread :
    (fd j : ℕ) (threads left : List (ℕ × Bool))
    → (left ≡ threads) ⊎ (left ≡ erase fd threads)
    → eqb fd j ≡ false
    → lookup j threads ≡ some true
    → lookup j left ≡ some true
shed_thread fd j threads left e other h = ground (arith, lookup-erase fd j threads)

apart :
    (s : Server) (fd j k : ℕ) (name : Bytes)
    → view s fd ≡ none
    → view s j ≡ some (name, k)
    → eqb fd j ≡ false
apart s fd j k name gone there = ground (arith, eqb_iff fd j)

-- A socket without a client may lose its thread.
Sheds-IsConsistent :
    (fd : ℕ) {s t : Server} → Sheds fd s t → view s fd ≡ none → IsConsistent s → IsConsistent t
Sheds-IsConsistent fd {s = s} {t = t} e gone v = record {
  registered = λ name k h. same k ∙ v.registered name k (rw e.names at h);
  placed = λ j k name h. v.placed j k name (sym (same j) ∙ h);
  threaded = λ j k name h.
      let there = sym (same j) ∙ h in
      shed_thread fd j s.client_threads t.client_threads e.threads (apart s fd j k name gone there)
        (v.threaded j k name there);
}
  where
    same : (j : ℕ) → view t j ≡ view s j
    same j = ap (λ cs. identity (lookup j cs)) e.clients

module _ (fd : ℕ) (c : ClientInfo) (s : Server) (here : lookup fd s.clients ≡ some c)
    (v : IsConsistent s) where
  pub Names-IsConsistent : (name : Bytes) {t : Server} → Names fd c name s t → IsConsistent t
  Names-IsConsistent name (inl e) = Same-IsConsistent e v
  Names-IsConsistent name (inr (inl e)) =
      Same-IsConsistent e (rename-IsConsistent s fd c _ name here refl refl v)
  Names-IsConsistent name (inr (inr (inl e))) =
      Same-IsConsistent e (rename-IsConsistent s fd c _ name here refl refl v)
  Names-IsConsistent name (inr (inr (inr e))) =
      Same-IsConsistent e (rename-IsConsistent s fd c _ name here refl refl v)

  pub Moves-IsConsistent : (room : Bytes) {t : Server} → Moves fd c s room t → IsConsistent t
  Moves-IsConsistent room (inl e) = Same-IsConsistent e v
  Moves-IsConsistent room (inr e) =
      Similar-IsConsistent (Similar-trans (put-Similar s fd c _ here refl refl) (Similar-of_Same e))
        v

module _ (env : Env) (fd : ℕ) (s : Server) (v : IsConsistent s) where
  pub remove_client-IsConsistent : (caller k : ℕ) → Leaves (remove_client env caller k s)
  remove_client-IsConsistent caller k =
      Sheds-IsConsistent k (remove_client-Sheds env caller k s) (view-forget s k)
        (forget-IsConsistent s k v)

  -- The target that /mute, /unmute and /kick look for.
  target_cases :
      {A : Type 0} (P : A → Type 0) (name : Bytes) (missing : A) (found : ℕ → ClientInfo → A)
      → P missing
      → ((key : ℕ) (target : ClientInfo)
          → lookup key s.clients ≡ some target
          → P (found key target))
      → P (find_target name s missing found)
  unfolding find_target
  target_cases P name missing found pm pf = elim (Option-cases (lookup name s.name_to_socket)) [
    | inl e ↦ rw (e, find_target) pm
    | inr (key, e) ↦ elim (Option-cases (lookup key s.clients)) [
      | inl e' ↦ rw (e, e', find_target) pm
      | inr (target, e') ↦ rw (e, e', find_target) (pf key target e')
    ]
  ]

  pub mute-IsConsistent : (c : ClientInfo) (args : Bytes) → IsConsistent (mute env fd c args s)
  mute-IsConsistent c args = elim (mute_cases env fd c args s) [
    | inl e ↦ Same-IsConsistent e v
    | inr e ↦ rw e (
        target_cases IsConsistent _ _ _ (sent-IsConsistent s _ v) λ key target h.
          Similar-IsConsistent
            (Similar-trans (put-Similar s key target _ h refl refl)
              (Similar-of_Same (muted-Same fd c s env key target _ _)))
            v)
  ]

  pub unmute-IsConsistent : (c : ClientInfo) (args : Bytes) → IsConsistent (unmute env fd c args s)
  unmute-IsConsistent c args = elim (unmute_cases env fd c args s) [
    | inl e ↦ Same-IsConsistent e v
    | inr e ↦ rw e (
        target_cases IsConsistent _ _ _ (sent-IsConsistent s _ v) λ key target h.
          Similar-IsConsistent
            (Similar-trans (put-Similar s key target _ h refl refl)
              (Similar-of_Same (unmuted-Same fd c s env key target _)))
            v)
  ]

-- The part of /quit that leaves the room.
module _ (c : ClientInfo) (s : Server) where
  pub left_room-Same : Same s (
      if is_empty c.current_room
      then s
      else broadcast
          (encode_system_message (c.name ++ (codes " left room: " ++ c.current_room)))
          (remove_member c.current_room c.name s))
  left_room-Same = grind (arith, broadcast-Same, remove_member-Same)

module _ (env : Env) (fd : ℕ) (c : ClientInfo) (s : Server) (v : IsConsistent s) where
  kicked-IsConsistent :
      (target : ClientInfo) (name reason : Bytes) → Leaves (kicked env fd target name reason s)
  unfolding kicked
  kicked-IsConsistent target name reason =
      remove_client-IsConsistent env fd _ (broadcast-IsConsistent _ _ (sent-IsConsistent s _ v)) fd
        _

  pub kick-IsConsistent : (args : Bytes) → Leaves (kick env fd c args s)
  kick-IsConsistent args = elim (kick_cases env fd c args s) [
    | inl e ↦ Same-IsConsistent e v
    | inr e ↦ rw e (
        target_cases env fd s v Leaves _ _ _ (sent-IsConsistent s _ v)
          λ key target h. kicked-IsConsistent target _ _)
  ]

  pub quit-IsConsistent : Leaves (quit env fd c s)
  unfolding quit
  quit-IsConsistent =
      remove_client-IsConsistent env fd _
        (sent-IsConsistent _ _ (Same-IsConsistent (left_room-Same c s) v)) fd fd
