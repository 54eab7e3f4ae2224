-- ===== src/Programs.antt =====
-- src/main_server.cpp and src/main_web.cpp: the port, what the server prints, and the two servers put
-- together. src/main_client.cpp is in Terminal.antt.
pub mod Serve
pub mod Talk
pub mod Tests
use smallchat.Base.{
  ℕ, ◌-◌, ◌%◌, ◌^◌, ◌≡◌, ◌<◌, refl, ◌∙◌, inl, inr, Option-cases, Bool, true, false, Option, none,
  some, List, [], ◌∷◌, ◌++◌, Bytes, codes, arith, if◌then◌else◌, ◌>>=◌,
}
use smallchat.Codec.Message.{ChatMessage, MessageType, newline}
use smallchat.Server.History.{has_type}
use smallchat.Server.Life
use smallchat.Server.Life.{Disk, Host, System, new_host, Started, rejected, started, terminates}
use smallchat.Server.Life.{set_websocket_broadcast_callback, set_websocket_send_to_callback}
use smallchat.Server.Life.Restart.{start-rejected}
use smallchat.Server.State.{ClientInfo}
use smallchat.Std.Decimal.{ℤ, pos, negsuc, stoi, print}
use smallchat.Web.Service
use smallchat.Web.Service.{Service, outside, new_service}

-- static_cast<uint16_t>
unfoldable pub to_uint16 : ℤ → ℕ
to_uint16 (pos n) = n % 2 ^ 16
to_uint16 (negsuc n) = 2 ^ 16 - 1 - n % 2 ^ 16

-- The port from the argument, or 8888 without one; `none` is an exception of std::stoi.
unfoldable pub port_of : Option Bytes → Option ℕ
unfolding to_uint16
port_of none = some 8888
port_of (some arg) = do number ← stoi arg; some (to_uint16 number)

-- The line for a message, with its time in seconds.
unfoldable pub message_text : ℕ → ChatMessage → Bytes
message_text seconds m =
    let kind =
      if has_type m MessageType.private
      then codes "[Private] " ++ (m.sender ++ (codes " -> " ++ m.receiver))
      else codes "[Broadcast] " ++ m.sender in
    codes "["
    ++ (print seconds ++ (codes "] " ++ (kind ++ (codes ": " ++ (m.content ++ (newline ∷ []))))))

unfoldable pub connect_text : ClientInfo → Bytes
connect_text c =
    codes "Client connected: "
    ++ (c.ip_address
        ++ (codes ":"
            ++ (print c.port
                ++ (codes " (fd: " ++ (print c.socket_fd ++ (codes ")" ++ (newline ∷ [])))))))

unfoldable pub disconnect_text : ClientInfo → Bytes
disconnect_text c = codes "Client disconnected: " ++ (c.name ++ (newline ∷ []))

-- main_web: it returns 1, or both servers stand for ever.
pub data WebMain : Type 0 where
  exits : Host → WebMain
  stands : Host → Service → WebMain

-- The web server at the chat server, whether that has started or not.
unfoldable pub add_web : Bool → Host → WebMain
add_web created h =
    let ((server, service), ok) = smallchat.Web.Service.start created h.server new_service in
    let told = record h { server = server } in if ok then stands told service else exits told

unfoldable pub main_web : System → Bool → Disk → WebMain
unfolding add_web
main_web sys created disk =
    elim (smallchat.Server.Life.start sys 8888 (codes "0.0.0.0") (new_host disk)) [
      | rejected h ↦ add_web created h
      | started h ↦ add_web created h
      | terminates h ↦ exits h
    ]

off :
    (sys : System) (disk : Disk) (h : Host)
    → smallchat.Server.Life.start sys 8888 (codes "0.0.0.0") (new_host disk) ≡ rejected h
    → h.running ≡ false
unfolding new_host
off sys disk h e = (start-rejected sys 8888 (codes "0.0.0.0") (new_host disk) h e).0

-- Where the chat server cannot start, main_web does not end: the web server serves a chat server that is
-- not running.
pub main_web-not_running :
    (sys : System) (disk : Disk) (h : Host)
    → smallchat.Server.Life.start sys 8888 (codes "0.0.0.0") (new_host disk) ≡ rejected h
    → (up : Host) × ((service : Service) × ((main_web sys true disk ≡ stands up service)
          × ((up.running ≡ false) × (service.serving ≡ true))))
unfolding main_web add_web smallchat.Web.Service.start new_service
main_web-not_running sys disk h e =
    let told =
      set_websocket_send_to_callback true (set_websocket_broadcast_callback true h.server) in
    (
      record h { server = told },
      (
        record { context = true; service_thread = true; serving = true; place = outside },
        (rw (e, main_web) refl, (off sys disk h e, refl)),
      ),
    )
