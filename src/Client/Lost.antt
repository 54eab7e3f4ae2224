-- ===== src/Client/Lost.antt =====
-- src/client.cpp: which of the server's lines processMessage shows.
use smallchat.Base.{
  ℕ, zero, suc, ◌<◌, ◌^◌, ◌-◌, ◌≡◌, ◌≢◌, refl, ap, ◌∙◌, sym, true, some, List, [], ◌∷◌, ◌++◌, Bytes,
  codes, arith, cut, cut_at_sep, Lacks, cut-Lacks, All, append_assoc, length, length-append,
  if◌then◌else◌,
}
use smallchat.Codec.Frames.{encode_system_message, encode_user_list, fields}
use smallchat.Codec.Message.{bar, newline}
use smallchat.Codec.Message.RoundTrip.{All-map}
use smallchat.Client.{
  ChatClient, process_message, show_other, show_typed, show_sys, show_users, read_users,
  file_notice, user_list,
}
use smallchat.Std.Decimal.{print, stoull-print, print-IsDigit, is_digit}

-- A system message whose text has no bar is not shown: the line that the server sends for it leads
-- to nothing, since the client looks for a bar behind the text.
pub process_message-system :
    (client : ChatClient) (now : ℕ) (t : Bytes)
    → Lacks bar t
    → (encode_system_message t ≡ (codes "SYS|" ++ t) ++ (newline ∷ []))
      × (process_message client now (codes "SYS|" ++ t) ≡ some [])
unfolding encode_system_message process_message show_other show_typed show_sys file_notice cut
process_message-system client now t h = (refl, ground (arith, cut-Lacks bar t h))

-- Names with a bar between them, as the end of a USERS line has them.
abbrev pub barred : List Bytes → Bytes → Bytes
barred [] last = last
barred (n ∷ ns) last = n ++ (bar ∷ barred ns last)

read_users-barred :
    (names : List Bytes) (last : Bytes) (count : ℕ)
    → All (Lacks bar) names
    → Lacks bar last
    → length names < count
    → read_users count (barred names last) ≡ names
unfolding read_users
read_users-barred names last zero h k lt = absurd (omega (arith, lt))
read_users-barred [] last (suc count) h k lt = rw (cut-Lacks bar last k, read_users) refl
read_users-barred (n ∷ ns) last (suc count) h k lt =
    rw (cut_at_sep bar n (barred ns last) h.0, read_users)
      (ap (λ t. n ∷ t) (read_users-barred ns last count h.1 k (omega (arith, lt))))

abbrev pub users_line : List Bytes → Bytes → Bytes
users_line names last = codes "USERS|" ++ (print (suc (length names)) ++ (bar ∷ barred names last))

print-Lacks-bar : (n : ℕ) → Lacks bar (print n)
print-Lacks-bar n =
    All-map (λ c. is_digit c ≡ true) (λ c. c ≢ bar) (print n) (λ c h. ground arith)
      (print-IsDigit n)

show_users-barred :
    (client : ChatClient) (names : List Bytes) (last : Bytes)
    → All (Lacks bar) names
    → Lacks bar last
    → length names < 2 ^ 64 - 1
    → show_users client (print (suc (length names)) ++ (bar ∷ barred names last))
      ≡ some (if client.userlist_callback then user_list names ∷ [] else [])
unfolding show_users
show_users-barred client names last h k small = ground (
  arith,
  cut_at_sep bar (print (suc (length names))) (barred names last)
      (print-Lacks-bar (suc (length names))),
  stoull-print (suc (length names)) (omega (arith, small)),
  read_users-barred names last (suc (length names)) h k (omega arith),
)

fields-barred :
    (names : List Bytes) (last : Bytes)
    → fields (names ++ (last ∷ [])) ≡ bar ∷ (barred names last ++ (newline ∷ []))
fields-barred [] last = refl
fields-barred (n ∷ ns) last =
    ap (λ t. bar ∷ (n ++ t)) (fields-barred ns last)
    ∙ ap (λ t. bar ∷ t) (sym (append_assoc n (bar ∷ barred ns last) (newline ∷ [])))

user_list_line :
    (names : List Bytes) (last : Bytes)
    → encode_user_list (names ++ (last ∷ [])) ≡ users_line names last ++ (newline ∷ [])
unfolding encode_user_list
user_list_line names last =
    let count : length (names ++ (last ∷ [])) ≡ suc (length names) =
      omega (arith, length-append names (last ∷ [])) in
    rw (count, fields-barred names last)
      (ap (λ t. codes "USERS|" ++ t)
        (sym (append_assoc (print (suc (length names))) (bar ∷ barred names last) (newline ∷ []))))

process_users :
    (client : ChatClient) (now : ℕ) (s : Bytes)
    → process_message client now (codes "USERS|" ++ s) ≡ show_users client s
unfolding process_message show_other show_typed file_notice cut
process_users client now s = refl

-- The line that the server sends for a list of users, at least one and fewer than 2 ^ 64, whose names
-- hold no bar, is shown without the last name; without a callback for lists nothing is shown.
pub process_message-users :
    (client : ChatClient) (now : ℕ) (names : List Bytes) (last : Bytes)
    → All (Lacks bar) names
    → Lacks bar last
    → length names < 2 ^ 64 - 1
    → (encode_user_list (names ++ (last ∷ [])) ≡ users_line names last ++ (newline ∷ []))
      × (process_message client now (users_line names last)
          ≡ some (if client.userlist_callback then user_list names ∷ [] else []))
process_message-users client now names last h k small = (
  user_list_line names last,
  process_users client now _ ∙ show_users-barred client names last h k small,
)
