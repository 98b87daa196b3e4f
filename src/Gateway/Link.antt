-- ===== src/Gateway/Link.antt =====
-- src/data_plane.rs: what is known of a framed connection from what has been sent on it and read from it.
use act_web_server_rs.Common.{String, List, [], ◌∷◌, ◌++◌, Result, ok, err, Bytes}
use act_web_server_rs.Ports.{Ports}
use act_web_server_rs.Gateway.{GatewayError}

-- A framed connection with the ids of the operations sent on it, less the oldest of them for each frame
-- that has been read from it, whosever reply the frame is.
pub record Link (p : Ports) : Type 0 where
  pub connection : p.Connection
  pub unread : List String

-- the same outside, where a connection carries what has been sent on it
abbrev pub linked : Ports → Ports
linked p = record p {
  Connection = Link p;
  framed = λ tls codec. record { connection = p.framed tls codec; unread = [] };
  send = λ c payload w. p.send c.connection payload w;
  next = λ c w. p.next c.connection w;
}

-- An operation is sent on the connection.
abbrev pub sent : {p : Ports} → String → Link p → Link p
sent id c = record c { unread = c.unread ++ id ∷ [] }

abbrev without_oldest : List String → List String
without_oldest [] = []
without_oldest (_ ∷ ids) = ids

-- the connection after waiting for a frame
abbrev pub after_wait : {p : Ports} → Result GatewayError Bytes → Link p → Link p
after_wait (ok bytes) c = record c { unread = without_oldest c.unread }
after_wait (err e) c = c
