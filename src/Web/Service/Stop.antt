-- ===== src/Web/Service/Stop.antt =====
-- src/web_server.cpp: WebServer::stop of a started server.
use smallchat.Base.{◌≡◌, refl, ◌≢◌, ◌⊎◌, inl, inr, Bool, true, false, arith}
use smallchat.Server.State.{Server}
use smallchat.Web.Service.{
  Place, outside, joining, destroying, returned, Service, new_service, start, Step, serves, leaves,
  cancels, skips, joins, joins_none, destroys, Steps, here, then_step,
}

-- The thread serves, and stop has not come behind its join.
pub record IsServing (s : Service) : Type 0 where
  pub serving : s.serving ≡ true
  pub context : s.context ≡ true
  pub thread : s.service_thread ≡ true
  pub place : (s.place ≡ outside) ⊎ (s.place ≡ joining)

true-false : {A : Type 0} {b : Bool} → b ≡ true → b ≡ false → A
true-false e f = absurd (ground arith)

not_destroying : {p : Place} → (p ≡ outside) ⊎ (p ≡ joining) → p ≢ destroying
not_destroying (inl e) f = ground arith
not_destroying (inr e) f = ground arith

Step-IsServing : {s t : Service} → Step s t → IsServing s → IsServing t
Step-IsServing (serves on up) v = v
Step-IsServing (leaves on gone) v = true-false v.context gone
Step-IsServing (cancels at up) v = record {
  serving = v.serving;
  context = v.context;
  thread = v.thread;
  place = inr refl;
}
Step-IsServing (skips at gone) v = true-false v.context gone
Step-IsServing (joins at ended) v = true-false v.serving ended
Step-IsServing (joins_none at none) v = true-false v.thread none
Step-IsServing (destroys at) v = absurd (not_destroying v.place at)

Steps-IsServing : {s t : Service} → Steps s t → IsServing s → IsServing t
Steps-IsServing here v = v
Steps-IsServing (then_step r i) v = Step-IsServing i (Steps-IsServing r v)

start-IsServing : (server : Server) → IsServing (start true server new_service).0.1
unfolding start new_service
start-IsServing server = record { serving = refl; context = refl; thread = refl; place = inl refl }

not_returned : {p : Place} → (p ≡ outside) ⊎ (p ≡ joining) → p ≢ returned
not_returned (inl e) f = ground arith
not_returned (inr e) f = ground arith

-- Once the server has started, stop never returns, in whatever order the two threads take their steps:
-- run goes on as long as the context is set, and stop clears it only behind the join of run's thread.
pub stop-waits_for_run :
    (server : Server) (t : Service)
    → Steps (start true server new_service).0.1 t
    → (t.place ≢ returned) × (t.serving ≡ true)
stop-waits_for_run server t r =
    let v = Steps-IsServing r (start-IsServing server) in (not_returned v.place, v.serving)
