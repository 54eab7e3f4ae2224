-- ===== src/Beast/Listener.antt =====
-- src/web_server_impl.cpp: the listener, the HTTP sessions, and start and stop of WebServer. The errors of
-- Boost are Boolean answers; each asynchronous call that is begun is a value.
use smallchat.Base.{
  ℕ, Bool, true, false, not, Option, none, some, Bytes, codes, equal, length, if◌then◌else◌,
}
use smallchat.Server.Life.{set_websocket_broadcast_callback, set_websocket_send_to_callback}
use smallchat.Server.State.{Server}

-- The text of the file, or the page that says that there is none.
unfoldable pub load_html_file : Option Bytes → Bytes
load_html_file none = codes "<html><body><h1>File not found</h1></body></html>"
load_html_file (some text) = text

pub record Response : Type 0 where
  pub status : ℕ
  pub content_type : Bytes
  pub content_length : ℕ
  pub connection : Bytes
  pub body : Bytes

unfoldable pub handle_request : Bytes → Response
handle_request html_content = record {
  status = 200;
  content_type = codes "text/html";
  content_length = length html_content;
  connection = codes "close";
  body = html_content;
}

-- What a callback of an HTTP session begins: an answer, the end of sending, or nothing.
pub data HttpCall : Type 0 where
  writes : Response → HttpCall
  shuts_down gives_up : HttpCall

pub data HttpRead : Type 0 where
  end_of_stream failed request : HttpRead

unfoldable pub on_read : Bytes → HttpRead → HttpCall
unfolding handle_request
on_read html_content end_of_stream = shuts_down
on_read html_content failed = gives_up
on_read html_content request = writes (handle_request html_content)

unfoldable pub on_write : Bool → HttpCall
on_write ok = if ok then shuts_down else gives_up

-- The kind of session of a new connection, by the target of its first request, if it can be read.
pub data Route : Type 0 where
  web_socket http : Route

unfoldable pub route : Option Bytes → Route
route none = http
route (some target) = if equal target (codes "/ws") then web_socket else http

-- What the calls of the acceptor answer.
pub record Acceptor : Type 0 where
  pub opens : Bool
  pub sets_option : Bool
  pub binds : Bool
  pub listens : Bool

-- The constructor of Listener returns at the first error; the result is whether it listens.
unfoldable pub listen : Acceptor → Bool
listen a =
    if not a.opens
    then false
    else if not a.sets_option
    then false
    else if not a.binds
    then false
    else a.listens

pub record WebServer : Type 0 where
  pub running : Bool
  pub service_thread : Bool
  pub listening : Bool
  pub html_content : Bytes

-- start of a server without a service thread; `throws` says that making the listener throws.
unfoldable pub start :
    Acceptor → Bool → Option Bytes → Server → WebServer → (Server × WebServer) × Bool
unfolding load_html_file listen
start a throws page server w =
    let told = set_websocket_send_to_callback true (set_websocket_broadcast_callback true server) in
    let loaded = record w { html_content = load_html_file page } in
    if throws then ((told, loaded), false) else (
      (told, record loaded { running = true; service_thread = true; listening = listen a }),
      true,
    )

-- io_context::stop ends run of the service thread, so the join returns.
unfoldable pub stop : WebServer → WebServer
stop w = record w { running = false; service_thread = false }
