-- ===== src/Remote/Examples.antt =====
-- The theorems about the Bearer check on small inputs.
use buildpulse_mcp.Common.{◌≡◌, ◌≢◌, ◌↔◌, codes, some, [], ok}
use buildpulse_mcp.Remote.{extract_token, served}
use buildpulse_mcp.Remote.Routes.{Incoming, by_transport, front_end}
use buildpulse_mcp.Remote.Routes.Transport.{IsMcpPath, front_end_transport_iff}
use buildpulse_mcp.Remote.Bearer.{Presents, extract_token_iff}

extract_token_iff_example :
    (extract_token (codes " Bearer bp_1 ") ≡ ok (codes "bp_1"))
    ↔ Presents (codes " Bearer bp_1 ") (codes "bp_1")
extract_token_iff_example = extract_token_iff (codes " Bearer bp_1 ") (codes "bp_1")

abbrev incoming : Incoming
incoming = record {
  method = codes "POST";
  path = codes "/mcp";
  origin = [];
  authorization = codes "Bearer bp_1";
  request_id = [];
}

front_end_transport_iff_example :
    ((front_end (codes "m") (codes "id") incoming).handled
      ≡ by_transport (served (some (codes "bp_1"))))
    ↔ ((codes "POST" ≢ codes "OPTIONS")
        × IsMcpPath (codes "/mcp")
        × Presents (codes "Bearer bp_1") (codes "bp_1"))
front_end_transport_iff_example =
    front_end_transport_iff (codes "m") (codes "id") incoming (codes "bp_1")
