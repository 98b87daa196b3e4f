-- ===== src/Operation.antt =====
-- src/data_plane.rs: the operations that the gateway builds for the API server and the replies that
-- it reads. The types belong to the crate `act_api_server`; their fields are those of the literals
-- and accesses in the source.
use act_web_server_rs.Common.{ℕ, String, Option}
use act_web_server_rs.Common.Json.{Value}

pub data WebApiMode : Type 0 where
  direct_read_only_database stateless_http stateful_mtls_tcp jet_stream_async : WebApiMode

pub data DataOperation : Type 0 where
  read : DataOperation

pub record OperationEnvelope : Type 0 where
  pub version : ℕ
  pub operation_id : String
  pub subject : String
  pub resource : String
  pub operation : DataOperation
  pub payload : Value
  pub deadline_unix_ms : ℕ
  pub dedupe_key : Option String

pub record AuthenticatedOperation : Type 0 where
  pub authorization : String
  pub envelope : OperationEnvelope

-- A reply's error is only tested for presence, so its type is a parameter.
pub record OperationReply (Failure : Type 0) : Type 0 where
  pub operation_id : Option String
  pub error : Option Failure
  pub result : Option Value
