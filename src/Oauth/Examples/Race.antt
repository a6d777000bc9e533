-- ===== src/Oauth/Examples/Race.antt =====
-- Two clients that present the example server's code at the same time.
use buildpulse_mcp.Common.{ℕ, ◌≤◌, ◌≡◌, ◌==◌, refl, Text, codes, Map, get, put, map, List, [], ◌∷◌}
use buildpulse_mcp.Oauth.Store.Memory.{MemoryStore, pop_code}
use buildpulse_mcp.Oauth.Store.MemoryContract.{memory_view, memory-Contract}
use buildpulse_mcp.Oauth.Server.{World, Call, value, random_hex}
use buildpulse_mcp.Oauth.Token.{code_tests, grant_code}
use buildpulse_mcp.Oauth.Token.Steps.{Exchange, advance}
use buildpulse_mcp.Oauth.Pkce.{verify_pkce, subtle_constant_time_eq}
use buildpulse_mcp.Oauth.System.Race.{
  arrive, issued_count, advance_at, begin, advances, racing_exchanges_once,
}
use buildpulse_mcp.Oauth.Examples.{lib, srv, call, broken_call, world}
use buildpulse_mcp.Oauth.Examples.Flow.{redeeming, redeeming_code}

abbrev two_clients : List (Call × Map Text)
two_clients = (call, redeeming) ∷ (broken_call, redeeming) ∷ []

abbrev Racing : Type 0
Racing = List Exchange × World MemoryStore (Unit {0})

abbrev piece : ℕ → Racing → Racing
piece i s = advance_at lib srv i s.0 s.1

-- The second client takes the code before the first, which ends first.
abbrev raced : Racing
raced = piece 1 (piece 1 (piece 0 (piece 1 (map arrive two_clients, world))))

raced_count : issued_count raced.0 ≡ 1
unfolding advance_at advance code_tests grant_code pop_code verify_pkce subtle_constant_time_eq
    value get put ◌==◌ random_hex
raced_count = refl

racing_exchanges_once_example : issued_count raced.0 ≤ 1
racing_exchanges_once_example =
    racing_exchanges_once lib srv memory_view memory-Contract (codes "k") two_clients raced.0 world
      raced.1 (redeeming_code, (redeeming_code, tt))
      (advances 1 (advances 1 (advances 0 (advances 1 begin))))
