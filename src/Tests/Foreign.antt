-- ===== src/Tests/Foreign.antt =====
-- A reply to the first operation that comes after the second has been sent.
use act_web_server_rs.Operation.{AuthenticatedOperation, stateful_mtls_tcp}
use act_web_server_rs.Gateway.Envelope.{bearer_operation}
use act_web_server_rs.Gateway.State.{Server}
use act_web_server_rs.Tests.Fixture.{ports}
use act_web_server_rs.Tests.State.{server, operation}

abbrev second_server : Server ports
second_server = record server { sequence = 2 }

abbrev second_operation : AuthenticatedOperation
second_operation = record operation {
  envelope = record operation.envelope { operation_id = "web-1700000000123-2" };
}

abbrev prepared : Server ports
prepared = (bearer_operation ports "actor-1" "Bearer token" stateful_mtls_tcp second_server).1
