-- ===== src/Terminal/Gate.antt =====
-- src/main_client.cpp: what is sent before a login.
use smallchat.Base.{
  ℕ, take, drop, take-drop, ap, ◌≡◌, refl, sym, ◌∙◌, subst, ◌⊎◌, inl, inr, Bool, true, false, not,
  ◌&&◌, Option, none, some, List, [], ◌∷◌, ◌++◌, Bytes, codes, All, All-append, arith, is_empty,
  equal, if◌then◌else◌, Bool-cases, Option-cases, equal_iff,
}
use smallchat.Client.{ChatClient, send, send_message}
use smallchat.Codec.Message.{newline}
use smallchat.Terminal.{
  Terminal, Round, goes, ends, is_any, is_login_cmd, is_allowed_cmd, add_sent, login_name,
  send_input, print_help, leave, print, please_login, with_prompt, get_prompt, run_input, on_input,
  on_inputs,
}

-- The words of a login and of a registration, with the space behind them.
pub data IsLoginWord : Bytes → Type 0 where
  long_login : IsLoginWord (codes "/login ")
  short_login : IsLoginWord (codes "/l ")
  long_register : IsLoginWord (codes "/register ")
  short_register : IsLoginWord (codes "/r ")

-- A text that begins with one of them.
abbrev pub IsLogin : Bytes → Type 0
IsLogin input = (word rest : Bytes) × (IsLoginWord word × (input ≡ word ++ rest))

-- The line of /info, or one of a login or a registration.
abbrev pub IsOpen : Bytes → Type 0
IsOpen line =
    (line ≡ codes "/info" ++ (newline ∷ []))
    ⊎ ((input : Bytes) × (IsLogin input × (line ≡ input ++ (newline ∷ []))))

begins_with :
    (n : ℕ) {word : Bytes} (input : Bytes)
    → IsLoginWord word
    → equal (take n input) word ≡ true
    → IsLogin input
begins_with n {word} input w e = (
  word,
  drop n input,
  (w, sym (take-drop n input) ∙ ap (λ v. v ++ drop n input) ((equal_iff (take n input) word).0 e)),
)

is_login_cmd-IsLogin : (input : Bytes) → is_login_cmd input ≡ true → IsLogin input
unfolding is_login_cmd
is_login_cmd-IsLogin input e = elim (Bool-cases (equal (take 7 input) (codes "/login "))) [
  | inl a ↦ begins_with 7 input long_login a
  | inr a ↦ elim (Bool-cases (equal (take 3 input) (codes "/l "))) [
    | inl b ↦ begins_with 3 input short_login b
    | inr b ↦ elim (Bool-cases (equal (take 10 input) (codes "/register "))) [
      | inl c ↦ begins_with 10 input long_register c
      | inr c ↦ begins_with 3 input short_register (ground arith)
    ]
  ]
]

-- Nobody has logged in, and only such lines have been sent.
pub record IsGated (t : Terminal) : Type 0 where
  pub out : t.logged_in ≡ false
  pub lines : All IsOpen t.sent

add_sent-IsGated :
    (o : Option Bytes) (t : Terminal)
    → ((x : Bytes) → o ≡ some x → IsOpen x)
    → IsGated t
    → IsGated (add_sent o t)
add_sent-IsGated none t h v = v
add_sent-IsGated (some x) t h v = record {
  out = v.out;
  lines = All-append IsOpen t.sent (x ∷ []) v.lines (h x refl, tt);
}

send_message-some :
    (client : ChatClient) (m x : Bytes) → send_message client m ≡ some x → x ≡ m ++ (newline ∷ [])
unfolding send_message send
send_message-some client m x e = ground arith

-- What is printed and who is shown does not matter.
shown-IsGated :
    (t u : Terminal) → u.logged_in ≡ t.logged_in → u.sent ≡ t.sent → IsGated t → IsGated u
shown-IsGated t u out sent v = record {
  out = out ∙ v.out;
  lines = subst (λ ls. All IsOpen ls) (sym sent) v.lines;
}

send_input-sent :
    (input : Bytes) (t : Terminal)
    → let told = add_sent (send_message t.client input) t in
      ((send_input input t).logged_in ≡ told.logged_in) × ((send_input input t).sent ≡ told.sent)
unfolding send_input
send_input-sent input t =
    let told = add_sent (send_message t.client input) t in
    elim (Option-cases (login_name input)) [ inl e ↦ ground arith | inr (name, e) ↦ ground arith ]

sends-IsGated :
    (m : Bytes) (t : Terminal)
    → IsOpen (m ++ (newline ∷ []))
    → IsGated t
    → IsGated (add_sent (send_message t.client m) t)
sends-IsGated m t ok v =
    add_sent-IsGated (send_message t.client m) t
      (λ x e. subst (λ l. IsOpen l) (sym (send_message-some t.client m x e)) ok) v

send_input-IsGated :
    (input : Bytes) (t : Terminal)
    → is_login_cmd input ≡ true
    → IsGated t
    → IsGated (send_input input t)
send_input-IsGated input t login v =
    let (out, sent) = send_input-sent input t in
    shown-IsGated _ _ out sent
      (sends-IsGated input t (inr (input, (is_login_cmd-IsLogin input login, refl))) v)

if_case :
    (b : Bool) (x y : Terminal)
    → (b ≡ true → IsGated x)
    → (b ≡ false → IsGated y)
    → IsGated (if b then x else y)
if_case true x y f g = f refl
if_case false x y f g = g refl

abbrev users : List Bytes
users = codes "/users" ∷ codes "/u" ∷ []

abbrev quits : List Bytes
quits = codes "/quit" ∷ codes "/q" ∷ codes "/Q" ∷ []

abbrev helps : List Bytes
helps = codes "/help" ∷ codes "/h" ∷ []

abbrev infos : List Bytes
infos = codes "/info" ∷ codes "/i" ∷ []

users_closed : (input : Bytes) → is_any input users ≡ true → is_allowed_cmd input ≡ false
unfolding is_allowed_cmd
users_closed input e = elim (Bool-cases (equal input (codes "/users"))) [
  | inl long ↦
      subst (λ i. is_allowed_cmd i ≡ false) (sym ((equal_iff input (codes "/users")).0 long)) refl
  | inr other ↦
      subst (λ i. is_allowed_cmd i ≡ false) (sym ((equal_iff input (codes "/u")).0 (ground arith)))
        refl
]

login_left :
    (input : Bytes)
    → is_allowed_cmd input ≡ true
    → is_any input quits ≡ false
    → is_any input helps ≡ false
    → is_any input infos ≡ false
    → is_login_cmd input ≡ true
unfolding is_allowed_cmd
login_left input allowed stays no_help no_info = ground arith

run_input-IsGated :
    (input : Bytes) (t : Terminal)
    → is_allowed_cmd input ≡ true
    → is_any input quits ≡ false
    → IsGated t
    → IsGated (run_input input t)
unfolding run_input print_help
run_input-IsGated input t allowed stays v =
    if_case (is_any input helps) _ _ (λ h. shown-IsGated t _ refl refl v)
      (λ no_help.
        if_case (is_any input users) _ _ (λ u. absurd (ground (arith, users_closed input u)))
          (λ u.
            if_case (is_any input infos) _ _ (λ i. sends-IsGated (codes "/info") t (inl refl) v)
              (λ no_info.
                send_input-IsGated input t (login_left input allowed stays no_help no_info) v)))

allowed_left :
    (logged allowed : Bool) → logged ≡ false → not logged && not allowed ≡ false → allowed ≡ true
allowed_left logged allowed e h = ground arith

unfoldable InRound : Round → Type 0
InRound (goes t) = IsGated t
InRound (ends t) = IsGated t

goes-InRound : (t : Terminal) → IsGated t → InRound (goes t)
unfolding InRound
goes-InRound t v = v

ends-InRound : (t : Terminal) → IsGated t → InRound (ends t)
unfolding InRound
ends-InRound t v = v

print-IsGated : (x : Bytes) (t : Terminal) → IsGated t → IsGated (print x t)
print-IsGated x t v = record { out = v.out; lines = v.lines }

leave-IsGated : (t : Terminal) → IsGated t → IsGated (leave t)
unfolding leave
leave-IsGated t v = record { out = v.out; lines = v.lines }

asked : (t : Terminal) → IsGated t → InRound (goes (with_prompt t))
asked t v = goes-InRound (with_prompt t) (print-IsGated (get_prompt t) t v)

round_case :
    (b : Bool) (x y : Round)
    → (b ≡ true → InRound x)
    → (b ≡ false → InRound y)
    → InRound (if b then x else y)
round_case true x y f g = f refl
round_case false x y f g = g refl

on_input-IsGated : (input : Bytes) (t : Terminal) → IsGated t → InRound (on_input input t)
unfolding on_input
on_input-IsGated input t v =
    round_case _ _ _ (λ off. ends-InRound t v)
      (λ on.
        round_case (is_empty input) _ _ (λ e. asked t v)
          (λ e.
            round_case (not t.logged_in && not (is_allowed_cmd input)) _ _
              (λ closed. asked (print please_login t) (print-IsGated please_login t v))
              (λ passes.
                round_case (is_any input quits) _ _
                  (λ q. ends-InRound (leave t) (leave-IsGated t v))
                  (λ stays.
                    asked (run_input input t)
                      (run_input-IsGated input t (allowed_left _ _ v.out passes) stays v)))))

next-IsGated :
    (inputs : List Bytes) (r : Round)
    → ((t : Terminal) → IsGated t → IsGated (on_inputs inputs t))
    → InRound r
    → IsGated (elim r [ ends t' ↦ t' | goes t' ↦ on_inputs inputs t' ])
unfolding InRound
next-IsGated inputs (goes t') later h = later t' h
next-IsGated inputs (ends t') later h = h

-- As long as nobody has logged in, whatever is typed, nothing is sent but /info and lines that begin
-- with /login, /register, /l or /r and a space: if this was so at the beginning, nobody is logged in
-- behind any inputs, and all that was sent are such lines.
pub on_inputs-IsGated :
    (inputs : List Bytes) (t : Terminal) → IsGated t → IsGated (on_inputs inputs t)
unfolding on_inputs
on_inputs-IsGated [] t v = v
on_inputs-IsGated (input ∷ inputs) t v =
    next-IsGated inputs (on_input input t) (on_inputs-IsGated inputs) (on_input-IsGated input t v)
