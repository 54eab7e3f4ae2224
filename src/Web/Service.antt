-- ===== src/Web/Service.antt =====
-- src/web_server.cpp: WebServer with its service thread. libwebsockets creates the context and serves;
-- the two threads, the caller of stop and the one of run, take turns step by step.
pub mod Stop
use smallchat.Base.{ℕ, ◌≡◌, Bool, true, false, if◌then◌else◌}
use smallchat.Server.Life.{set_websocket_broadcast_callback, set_websocket_send_to_callback}
use smallchat.Server.State.{Server}

-- Where the caller of stop stands: not in it, behind lws_cancel_service, behind the join, or back.
pub data Place : Type 0 where
  outside joining destroying returned : Place

-- Whether context_ is set, service_thread_ is joinable, and the thread is inside of run.
pub record Service : Type 0 where
  pub context : Bool
  pub service_thread : Bool
  pub serving : Bool
  pub place : Place

unfoldable pub new_service : Service
new_service = record { context = false; service_thread = false; serving = false; place = outside }

-- start of a server without a service thread, with whether lws_create_context gives a context; the
-- callbacks are set in any case.
unfoldable pub start : Bool → Server → Service → (Server × Service) × Bool
start created server s =
    let told = set_websocket_send_to_callback true (set_websocket_broadcast_callback true server) in
    if created
    then ((told, record s { context = true; service_thread = true; serving = true }), true)
    else ((told, record s { context = false }), false)

-- A step of one of the two threads. In run: lws_service and the next round, or the end of the loop. In
-- stop: with a context, cancel, join, destroy, and back; without, back at once.
pub data Step : Service → Service → Type 0 where
  serves : {s : Service} → s.serving ≡ true → s.context ≡ true → Step s s
  leaves :
      {s : Service} → s.serving ≡ true → s.context ≡ false → Step s (record s { serving = false })
  cancels :
      {s : Service} → s.place ≡ outside → s.context ≡ true → Step s (record s { place = joining })
  skips :
      {s : Service} → s.place ≡ outside → s.context ≡ false → Step s (record s { place = returned })
  joins :
      {s : Service}
      → s.place ≡ joining
      → s.serving ≡ false
      → Step s (record s { place = destroying; service_thread = false })
  joins_none :
      {s : Service}
      → s.place ≡ joining
      → s.service_thread ≡ false
      → Step s (record s { place = destroying })
  destroys :
      {s : Service} → s.place ≡ destroying → Step s (record s { context = false; place = returned })

pub data Steps : Service → Service → Type 0 where
  here : {s : Service} → Steps s s
  then_step : {s t u : Service} → Steps s t → Step t u → Steps s u
