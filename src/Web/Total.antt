-- ===== src/Web/Total.antt =====
-- src/web_server.cpp: the exceptions of callback_websocket.
use smallchat.Base.{
  ℕ, ◌≡◌, ◌≤◌, ◌<◌, refl, sym, subst, none, [], ◌∷◌, Bytes, codes, arith, length, leb, equal_iff,
  ◌↔◌, cut, Bool-cases, inl, inr, ◌⊎◌,
}
use smallchat.Web.{Web, web_receive, web_command, web_login, substr_from, up_to_space}

-- The first word is the whole text, or the text is longer than it.
up_to_space_cases : (s : Bytes) → (up_to_space s ≡ s) ⊎ (length (up_to_space s) < length s)
unfolding up_to_space cut
up_to_space_cases [] = inl refl
up_to_space_cases (c ∷ s) = ground (arith, up_to_space_cases s)

module _ (wsi : ℕ) (w : Web) where
  login_short : (message : Bytes) → web_login wsi message w ≡ none → length message ≤ 6
  unfolding web_login substr_from
  login_short message e = elim (Bool-cases (leb 7 (length message))) [
    | inl long ↦ ground arith
    | inr short ↦ ground arith
  ]

  none-IsLogin : (message : Bytes) → web_receive wsi message w ≡ none → message ≡ codes "/login"
  unfolding web_receive web_command
  none-IsLogin message e = ground (
    arith,
    up_to_space_cases message,
    equal_iff (up_to_space message) (codes "/login"),
    login_short message,
  )

  login-throws : web_receive wsi (codes "/login") w ≡ none
  unfolding web_receive web_command web_login substr_from up_to_space cut
  login-throws = refl

  -- The callback raises an exception for the message "/login", without a space, and for no other.
  pub web_receive-throws :
      (message : Bytes) → (web_receive wsi message w ≡ none) ↔ (message ≡ codes "/login")
  web_receive-throws message =
      (none-IsLogin message, λ e. subst (λ m. web_receive wsi m w ≡ none) (sym e) login-throws)
