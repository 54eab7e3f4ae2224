-- ===== src/Client/Connection/Joined.antt =====
-- src/client.cpp: the receive thread when the client is destroyed.
use smallchat.Base.{◌≡◌, true, arith}
use smallchat.Client.Connection.{
  Connection, done, terminates, stop, disconnect, destroy, close_socket,
}

-- disconnect clears running_ before it calls stop, which then does not join: after connect and start,
-- neither disconnect, nor stop behind it, ends the thread's object, and the destructor of the client
-- ends the program.
pub disconnect-terminates :
    (c : Connection)
    → c.client.connected ≡ true
    → c.receiving ≡ true
    → (destroy c ≡ terminates (disconnect c))
      × (destroy (stop (disconnect c)) ≡ terminates (disconnect c))
unfolding destroy disconnect stop close_socket
disconnect-terminates c up on = (ground arith, ground arith)

-- stop before disconnect joins the thread, and the client is destroyed in order.
pub stop-disconnect :
    (c : Connection)
    → c.client.connected ≡ true
    → c.client.running ≡ true
    → destroy (disconnect (stop c)) ≡ done (disconnect (stop c))
unfolding destroy disconnect stop close_socket
stop-disconnect c up on = ground arith
