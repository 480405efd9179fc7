-- ===== src/Server.antt =====
-- server.c and server.h: a destination of metrics.
pub mod Send
pub mod Conn
pub mod Reader
pub mod Thread
mod Tests
use carbon_c_relay.Prelude.{ℕ, Option, List}

-- `con_type`
pub data ConType : Type 0 where
  linemode syslogmode : ConType

-- What the hash rings and the router read of `struct _server`; `id` is the server's address, by
-- which two servers are told apart.
pub record Server : Type 0 where
  pub id : ℕ
  pub ip : List ℕ
  pub port : ℕ
  pub instance_name : Option (List ℕ)
  pub type : ConType
