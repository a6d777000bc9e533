-- ===== src/Oauth/Examples/Tables.antt =====
-- The tables of the example server are sound.
use buildpulse_mcp.Common.{inl, refl, codes, contains_byte, to_lower, get, arith}
use buildpulse_mcp.Oauth.Guard.Safety.{IsSafeUri, IsRegistrable}
use buildpulse_mcp.Oauth.Store.Memory.{memory_store, put_client, put_code, put_pending, put_refresh}
use buildpulse_mcp.Oauth.Store.MemoryContract.{memory_view, memory-Contract}
use buildpulse_mcp.Oauth.System.Soundness.{
  IsSound, put_client-IsSound, put_code-IsSound, put_pending-IsSound, put_refresh-IsSound,
}
use buildpulse_mcp.Oauth.Examples.{
  lib, uri, page_url, client, stored_code, stored_pending, stored_refresh, world, empty_world,
}

uri-IsSafeUri : IsSafeUri lib uri
unfolding to_lower contains_byte
uri-IsSafeUri = record {
  url = page_url;
  parses = refl;
  safe = inl (refl, λ e. cc);
  no_fragment = refl;
  no_hash = refl;
  given = λ e. cc;
  short = omega arith;
}

client-IsRegistrable : IsRegistrable lib client.client_name client.redirect_uris
client-IsRegistrable = record {
  some_uri = omega arith;
  few_uris = omega arith;
  short_name = omega arith;
  safe_uris = (uri-IsSafeUri, tt);
}

pub empty-IsSound : IsSound lib memory_view empty_world.store
unfolding get
empty-IsSound = record { clients = λ k c h. cc; pending = λ k p h. cc; codes = λ k c h. cc }

with_client-IsSound : IsSound lib memory_view (memory_store.put_client empty_world.store client).1
with_client-IsSound =
    put_client-IsSound lib memory_store memory_view memory-Contract empty_world.store empty-IsSound
      client client-IsRegistrable

pub world-IsSound : IsSound lib memory_view world.store
unfolding put_client put_code put_pending put_refresh
world-IsSound =
    put_refresh-IsSound lib memory_store memory_view memory-Contract _
      (put_pending-IsSound lib memory_store memory_view memory-Contract _
        (put_code-IsSound lib memory_store memory_view memory-Contract _ with_client-IsSound
          stored_code (uri-IsSafeUri, λ e. cc))
        (codes "consent:x") stored_pending (uri-IsSafeUri, λ e. cc))
      stored_refresh
