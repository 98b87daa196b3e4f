-- ===== src/Gateway/Overlap/System.antt =====
-- src/data_plane.rs: any number of calls of `read` over one gateway, interleaved in any order, and
-- dropped anywhere.
use act_web_server_rs.Common.{◌≡◌, String, false, none, List, [], ◌∷◌, ◌++◌}
use act_web_server_rs.Operation.{WebApiMode}
use act_web_server_rs.Ports.{Ports}
use act_web_server_rs.Gateway.Transport.{TransportGateway, max_in_flight_operations}
use act_web_server_rs.Gateway.Link.{linked}
use act_web_server_rs.Gateway.Overlap.{Shared, Phase, called, advance, dropped}

pub record System (p : Ports) : Type 0 where
  pub shared : Shared p
  pub calls : List (Phase p)

module _ (p : Ports) where
  -- `TransportGateway::new` and `PersistentMtlsClient::from_config` in the world `w`
  abbrev pub fresh : p.World → System p
  fresh w = record {
    shared = record {
      server = record {
        world = w;
        sequence = 1;
        connection = none;
        permits = max_in_flight_operations;
      };
      locked = false;
    };
    calls = [];
  }

  -- the same calls in another world
  abbrev pub in_world : p.World → System p → System p
  in_world w a = record a {
    shared = record a.shared { server = record a.shared.server { world = w } };
  }

  module _ (g : TransportGateway (linked p)) where
    -- the system after the call between `before` and `behind` has made its step
    abbrev pub moved : List (Phase p) → Phase p → List (Phase p) → System p → System p
    moved before phase behind a = record {
      shared = (advance p g phase a.shared).1;
      calls = before ++ (advance p g phase a.shared).0 ∷ behind;
    }

    pub data Step (a b : System p) : Type 0 where
      arrive :
          (mode : WebApiMode) (subject authorization : String)
          → b ≡ record a { calls = called mode subject authorization ∷ a.calls }
          → Step a b
      move :
          (before : List (Phase p)) (phase : Phase p) (behind : List (Phase p))
          → a.calls ≡ before ++ phase ∷ behind
          → b ≡ moved before phase behind a
          → Step a b
      drop :
          (before : List (Phase p)) (phase : Phase p) (behind : List (Phase p))
          → a.calls ≡ before ++ phase ∷ behind
          → b ≡ record { shared = dropped p phase a.shared; calls = before ++ behind }
          → Step a b
      -- The world changes.
      outside : (w : p.World) → b ≡ in_world w a → Step a b

    pub data Reach (a : System p) : System p → Type 0 where
      here : Reach a a
      later : {b c : System p} → Reach a b → Step b c → Reach a c
