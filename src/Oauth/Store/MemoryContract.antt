-- ===== src/Oauth/Store/MemoryContract.antt =====
-- The in-memory backend keeps the contract of the Store interface.
use buildpulse_mcp.Common.{
  ◌≡◌, refl, ◌≢◌, Text, Map, get, put, delete, get-put, get-delete, eq_iff, eq_refl, some, none, ok,
  err, arith,
}
use buildpulse_mcp.Oauth.Store.{not_found}
use buildpulse_mcp.Oauth.Store.Contract.{View, Adds, Within, Takes, Contract}
use buildpulse_mcp.Oauth.Store.Memory.{
  MemoryStore, memory_store, found, put_client, get_client, put_code, pop_code, put_pending,
  pop_pending, put_refresh, pop_refresh,
}

abbrev pub memory_view : View MemoryStore
memory_view = record {
  clients = λ m k c. get m.clients k ≡ some c;
  codes = λ m. get m.codes;
  pending = λ m. get m.pending;
  refresh = λ m. get m.refresh;
  stamp = λ t. t;
}

module _ {A : Type 0} (m : Map A) (k : Text) where
  pub put-Adds : (a : A) → Adds (get m) (get (put m k a)) k a
  put-Adds a j b h = ground (arith, get-put m k j a, eq_iff k j)

  pub put-keeps : (a : A) (j : Text) → j ≢ k → get (put m k a) j ≡ get m j
  put-keeps a j ne = ground (arith, get-put m k j a, eq_iff k j)

  pub delete-Within : Within (get m) (get (delete m k))
  delete-Within j b h = ground (arith, get-delete m k j)

  found-Takes : (a : A) → found (get m k) ≡ ok a → Takes (get m) (get (delete m k)) k a
  found-Takes a h = ground (arith, get-delete m k k, eq_refl k)

  found-misses : found (get m k) ≡ err not_found → get (delete m k) k ≡ none
  found-misses h = ground (arith, get-delete m k k, eq_refl k)

-- The in-memory backend keeps every law of the contract: a Put adds at most its record, a Pop returns
-- what was stored and leaves nothing under the key, and no method touches another table.
pub memory-Contract : Contract memory_store memory_view
unfolding put_client get_client put_code pop_code put_pending pop_pending put_refresh pop_refresh
memory-Contract = record {
  stamp_le = λ t. omega arith;
  get_client_reads = λ s k c h. ground arith;
  put_client_keeps = λ s c r k ne. rw (put-keeps s.clients c.client_id c k ne) (λ h. h, λ h. h);
  put_client_adds = λ s c r k h. put-Adds s.clients c.client_id c k r h;
  put_client_codes = λ s c. record { at = λ k. refl };
  put_client_pending = λ s c. record { at = λ k. refl };
  put_client_refresh = λ s c. record { at = λ k. refl };
  put_code_adds = λ s c. put-Adds s.codes c.code c;
  put_code_clients = λ s a. record { at = λ k c. (λ h. h, λ h. h) };
  put_code_pending = λ s c. record { at = λ k. refl };
  put_code_refresh = λ s c. record { at = λ k. refl };
  pop_code_takes = λ s k c. found-Takes s.codes k c;
  pop_code_within = λ s k. delete-Within s.codes k;
  pop_code_clients = λ s k. record { at = λ j c. (λ h. h, λ h. h) };
  pop_code_pending = λ s k. record { at = λ j. refl };
  pop_code_refresh = λ s k. record { at = λ j. refl };
  put_pending_adds = λ s k p. put-Adds s.pending k p;
  put_pending_clients = λ s k p. record { at = λ j c. (λ h. h, λ h. h) };
  put_pending_codes = λ s k p. record { at = λ j. refl };
  put_pending_refresh = λ s k p. record { at = λ j. refl };
  pop_pending_takes = λ s k p. found-Takes s.pending k p;
  pop_pending_within = λ s k. delete-Within s.pending k;
  pop_pending_clients = λ s k. record { at = λ j c. (λ h. h, λ h. h) };
  pop_pending_codes = λ s k. record { at = λ j. refl };
  pop_pending_refresh = λ s k. record { at = λ j. refl };
  put_refresh_adds = λ s r. put-Adds s.refresh r.hashed_token r;
  put_refresh_clients = λ s r. record { at = λ k c. (λ h. h, λ h. h) };
  put_refresh_codes = λ s r. record { at = λ k. refl };
  put_refresh_pending = λ s r. record { at = λ k. refl };
  pop_refresh_takes = λ s k r. found-Takes s.refresh k r;
  pop_refresh_misses = λ s k h. found-misses s.refresh k h;
  pop_refresh_within = λ s k. delete-Within s.refresh k;
  pop_refresh_clients = λ s k. record { at = λ j c. (λ h. h, λ h. h) };
  pop_refresh_codes = λ s k. record { at = λ j. refl };
  pop_refresh_pending = λ s k. record { at = λ j. refl };
}
