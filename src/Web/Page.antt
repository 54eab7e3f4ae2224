-- ===== src/Web/Page.antt =====
-- src/web_server.cpp: the page, callback_http, and the table of the protocols that libwebsockets serves.
mod Html
use mathlib.Core.List.{flatten}
use smallchat.Base.{
  ℕ, arith, sym, subst, ◌∙◌, ◌≡◌, ◌≢◌, refl, Option, none, some, List, [], ◌∷◌, ◌++◌, Bytes, codes,
  leb, length, if◌then◌else◌, ◌>>=◌,
}
use smallchat.Web.Page.Html.{html_lines}
use smallchat.Web.{Web, web_receive, web_closed}

unfoldable pub html_page : Bytes
unfolding flatten html_lines
html_page = flatten html_lines

-- enum lws_callback_reasons, as far as the callbacks name it.
pub data Reason : Type 0 where
  http established receive closed other : Reason

-- lws_write of the page, and lws_http_transaction_completed.
pub data HttpDone : Type 0 where
  page : ℕ → Bytes → HttpDone
  completed : ℕ → HttpDone

-- The state of the WebSocket side, and what callback_http did, oldest first.
pub record Gateway : Type 0 where
  pub web : Web
  pub done : List HttpDone

-- LWS_CALLBACK_HTTP; `none` is a memcpy beyond the end of buf.
unfoldable pub send_page : ℕ → Gateway → Option Gateway
unfolding html_page
send_page wsi g =
    if leb (length html_page) 16384
    then some (record g { done = g.done ++ (page wsi html_page ∷ completed wsi ∷ []) })
    else none

unfoldable pub callback_http : Reason → ℕ → Gateway → Option Gateway
unfolding send_page
callback_http Reason.http wsi g = send_page wsi g
callback_http Reason.established wsi g = some g
callback_http Reason.receive wsi g = some g
callback_http Reason.closed wsi g = some g
callback_http Reason.other wsi g = some g

-- An exception leaves it where it leaves web_receive; g_chat_server is set by start.
unfoldable pub callback_websocket : Reason → ℕ → Bytes → Gateway → Option Gateway
callback_websocket Reason.http wsi message g = some g
callback_websocket Reason.established wsi message g = some g
callback_websocket Reason.receive wsi message g = do
  web ← web_receive wsi message g.web
  some (record g { web = web })
callback_websocket Reason.closed wsi message g = some (record g { web = web_closed wsi g.web })
callback_websocket Reason.other wsi message g = some g

pub data Callback : Type 0 where
  to_http to_websocket : Callback

-- struct lws_protocols; a std::string has 32 bytes.
pub record Protocol : Type 0 where
  pub name : Bytes
  pub callback : Callback
  pub per_session_data_size : ℕ
  pub rx_buffer_size : ℕ

abbrev pub http_only : Protocol
http_only = record {
  name = codes "http-only";
  callback = to_http;
  per_session_data_size = 0;
  rx_buffer_size = 0;
}

abbrev pub smallchat_protocol : Protocol
smallchat_protocol = record {
  name = codes "smallchat-protocol";
  callback = to_websocket;
  per_session_data_size = 32;
  rx_buffer_size = 1024;
}

abbrev pub protocols : List Protocol
protocols = http_only ∷ smallchat_protocol ∷ []

-- A callback of a connection with its protocol.
unfoldable pub call : Protocol → Reason → ℕ → Bytes → Gateway → Option Gateway
unfolding callback_http callback_websocket
call p reason wsi message g = elim p.callback [
  | to_http ↦ callback_http reason wsi g
  | to_websocket ↦ callback_websocket reason wsi message g
]

module _ (wsi : ℕ) (g : Gateway) where
  callback_http-fits : (reason : Reason) → callback_http reason wsi g ≢ none
  unfolding callback_http html_page
  callback_http-fits Reason.http e = ground (arith, e)
  callback_http-fits Reason.established e = ground (arith, e)
  callback_http-fits Reason.receive e = ground (arith, e)
  callback_http-fits Reason.closed e = ground (arith, e)
  callback_http-fits Reason.other e = ground (arith, e)

  -- The page fits the buffer that it is copied to: the callback of the HTTP protocol never writes
  -- beyond it, and when a page is asked for, the whole page is written and the transaction completed.
  pub callback_http-html_page :
      ((reason : Reason) → callback_http reason wsi g ≢ none)
      × (callback_http Reason.http wsi g
          ≡ some (record g { done = g.done ++ (page wsi html_page ∷ completed wsi ∷ []) }))
  unfolding callback_http html_page
  callback_http-html_page = (callback_http-fits, refl)
