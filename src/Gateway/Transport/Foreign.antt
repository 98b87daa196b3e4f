-- ===== src/Gateway/Transport/Foreign.antt =====
-- src/data_plane.rs: a read in the mTLS mode that is answered with the reply to another operation.
use act_web_server_rs.Ports.{Ports}
