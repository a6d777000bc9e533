-- ===== src/Oauth/Store/DynamoContract.antt =====
-- The DynamoDB backend keeps the contract of the Store interface, as far as DynamoDB does what its
-- documentation says.
use buildpulse_mcp.Common.{
  ◌≡◌, ◌≢◌, ◌≤◌, ◌⊎◌, ◌↔◌, sym, ap, ◌∙◌, inl, inr, refl, ℕ, ◌-◌, ◌%◌, Text, Option, none, some, ok,
  err, arith,
}
use buildpulse_mcp.Oauth.Model.{RegisteredClient, AuthorizationCode, PendingAuth, RefreshToken}
use buildpulse_mcp.Oauth.Store.{not_found}
use buildpulse_mcp.Oauth.Store.Contract.{
  View, Adds, Within, Takes, Contract, stamped_client, stamped_code, stamped_pending,
  stamped_refresh,
}
use buildpulse_mcp.Oauth.Store.Dynamo.{
  DynamoClientItem, DynamoCodeItem, DynamoPendingItem, DynamoRefreshItem, Table, DynamoStore, unix,
  unix_to_time, client_item, read_client, code_item, read_code, pending_item, read_pending,
  refresh_item, read_refresh, put_row, pop_row, fetched, dynamo_store,
}

-- PutItem replaces the item with the key of its argument, if it has an effect, and DeleteItem with
-- ALL_OLD returns what it removes, and no item only if there is none.
pub record IsTable {D V : Type 0} (t : Table D V) (items : D → Text → Option V) (key : V → Text)
    : Type 0 where
  pub put_adds : (s : D) (raw : V) → Adds (items s) (items (t.put_item s raw).1) (key raw) raw
  pub delete_takes :
      (s : D) (k : Text) (raw : V)
      → (t.delete_item s k).0 ≡ some (some raw)
      → Takes (items s) (items (t.delete_item s k).1) k raw
  pub delete_misses :
      (s : D) (k : Text) → (t.delete_item s k).0 ≡ some none → items (t.delete_item s k).1 k ≡ none
  pub delete_within : (s : D) (k : Text) → Within (items s) (items (t.delete_item s k).1)

-- A table whose items are put and read, and never deleted. GetItem without ConsistentRead is
-- eventually consistent: it may miss the latest PutItem, and return any item that the table holds or
-- held under the key. `held` are these.
pub record IsRegistry {D V : Type 0} (t : Table D V) (held : D → Text → V → Type 0) (key : V → Text)
    : Type 0 where
  pub put_adds :
      (s : D) (raw old : V) (k : Text)
      → held (t.put_item s raw).1 k old
      → held s k old ⊎ ((k ≡ key raw) × (old ≡ raw))
  pub put_keeps :
      (s : D) (raw old : V) (k : Text)
      → k ≢ key raw
      → held (t.put_item s raw).1 k old ↔ held s k old
  pub get_reads : (s : D) (k : Text) (raw : V) → t.get_item s k ≡ some (some raw) → held s k raw

-- The calls on a table leave what the clients' table holds or held.
pub record LeavesHeld {D V W : Type 0} (t : Table D V) (held : D → Text → W → Type 0) : Type 0 where
  pub on_put :
      (s : D) (raw : V) (k : Text) (old : W) → held (t.put_item s raw).1 k old ↔ held s k old
  pub on_delete : (s : D) (j k : Text) (old : W) → held (t.delete_item s j).1 k old ↔ held s k old

-- The calls on one table leave the items of another.
pub record Leaves {D V W : Type 0} (t : Table D V) (items : D → Text → Option W) : Type 0 where
  pub on_put : (s : D) (raw : V) (k : Text) → items (t.put_item s raw).1 k ≡ items s k
  pub on_delete : (s : D) (j k : Text) → items (t.delete_item s j).1 k ≡ items s k

-- The items under each key, and of the clients also those that were replaced.
pub record Items (D : Type 0) : Type 1 where
  pub clients : D → Text → DynamoClientItem → Type 0
  pub codes : D → Text → Option DynamoCodeItem
  pub pending : D → Text → Option DynamoPendingItem
  pub refresh : D → Text → Option DynamoRefreshItem

-- Four tables that are different ones.
pub record IsDatabase {D : Type 0} (d : DynamoStore D) (rt : Table D DynamoRefreshItem)
    (items : Items D) : Type 0 where
  pub has_refresh : d.refresh ≡ some rt
  pub clients : IsRegistry d.clients items.clients (λ raw. raw.client_id)
  pub codes : IsTable d.codes items.codes (λ raw. raw.code)
  pub pending : IsTable d.pending items.pending (λ raw. raw.state)
  pub refresh : IsTable rt items.refresh (λ raw. raw.hashed_token)
  pub clients_codes : Leaves d.clients items.codes
  pub clients_pending : Leaves d.clients items.pending
  pub clients_refresh : Leaves d.clients items.refresh
  pub codes_clients : LeavesHeld d.codes items.clients
  pub codes_pending : Leaves d.codes items.pending
  pub codes_refresh : Leaves d.codes items.refresh
  pub pending_clients : LeavesHeld d.pending items.clients
  pub pending_codes : Leaves d.pending items.codes
  pub pending_refresh : Leaves d.pending items.refresh
  pub refresh_clients : LeavesHeld rt items.clients
  pub refresh_codes : Leaves rt items.codes
  pub refresh_pending : Leaves rt items.pending

-- A row as the record that is read from it.
abbrev pub read_row : {V A : Type 0} → (V → A) → Option V → Option A
read_row read none = none
read_row read (some raw) = some (read raw)

-- A client is read from an item that is or was in the table.
abbrev pub HeldAs : (DynamoClientItem → Type 0) → RegisteredClient → Type 0
HeldAs held c = (raw : DynamoClientItem) × held raw × (read_client raw ≡ c)

HeldAs-iff :
    {held held' : DynamoClientItem → Type 0} {c : RegisteredClient}
    → ((raw : DynamoClientItem) → held raw ↔ held' raw)
    → HeldAs held c ↔ HeldAs held' c
HeldAs-iff same = (λ (raw, h, e). (raw, (same raw).0 h, e), λ (raw, h, e). (raw, (same raw).1 h, e))

-- The whole second that a time in nanoseconds lies in.
abbrev pub whole_second : ℕ → ℕ
whole_second t = t - t % 1000000000

abbrev pub dynamo_view : {D : Type 0} → Items D → View D
dynamo_view items = record {
  clients = λ s k. HeldAs (items.clients s k);
  codes = λ s k. read_row read_code (items.codes s k);
  pending = λ s k. read_row read_pending (items.pending s k);
  refresh = λ s k. read_row read_refresh (items.refresh s k);
  stamp = whole_second;
}

module _ {V A : Type 0} (read : V → A) where
  fetched_of :
      (o : Option (Option V)) (a : A)
      → fetched read o ≡ ok a
      → (raw : V) × (o ≡ some (some raw)) × (read raw ≡ a)
  fetched_of none a h = cc
  fetched_of (some none) a h = cc
  fetched_of (some (some raw)) a h = (raw, refl, cc)

  fetched_misses : (o : Option (Option V)) → fetched read o ≡ err not_found → o ≡ some none
  fetched_misses none h = absurd (cc)
  fetched_misses (some none) h = refl
  fetched_misses (some (some raw)) h = absurd (cc)

module _ {D V A : Type 0} (t : Table D V) (items : D → Text → Option V) (key : V → Text)
    (table : IsTable t items key) (read : V → A) where
  abbrev rows : D → Text → Option A
  rows s k = read_row read (items s k)

  row_of :
      (o : Option V) (a : A)
      → read_row read o ≡ some a
      → (raw : V) × (o ≡ some raw) × (read raw ≡ a)
  row_of none a h = cc
  row_of (some raw) a h = (raw, refl, cc)

  put_row-Adds :
      (s : D) (raw : V) (b : A)
      → read raw ≡ b
      → Adds (rows s) (rows (put_row t s raw).1) (key raw) b
  put_row-Adds s raw b reads j a h =
      let (raw', found, same) = row_of (items (t.put_item s raw).1 j) a h in
      elim (table.put_adds s raw j raw' found) [
        | inl old ↦ inl (rw old (cc))
        | inr (at_key, is_new) ↦ inr (at_key, cc)
      ]

  pop_row-Takes :
      (s : D) (k : Text) (a : A)
      → (pop_row t read s k).0 ≡ ok a
      → Takes (rows s) (rows (pop_row t read s k).1) k a
  pop_row-Takes s k a h =
      let (raw, found, same) = fetched_of read (t.delete_item s k).0 a h in
      let (stored, gone) = table.delete_takes s k raw found in (rw stored (cc), rw gone)

  pop_row_misses :
      (s : D) (k : Text)
      → (pop_row t read s k).0 ≡ err not_found
      → rows (pop_row t read s k).1 k ≡ none
  pop_row_misses s k h =
      rw (table.delete_misses s k (fetched_misses read (t.delete_item s k).0 h)) refl

  pop_row-Within : (s : D) (k : Text) → Within (rows s) (rows (pop_row t read s k).1)
  pop_row-Within s k j a h =
      let (raw, found, same) = row_of (items (t.delete_item s k).1 j) a h in
      rw (table.delete_within s k j raw found) (cc)

stamp-le : (t : ℕ) → whole_second t ≤ t
stamp-le t = omega arith

unix_to_time-unix : (t : ℕ) → unix_to_time (unix t) ≡ whole_second t
unix_to_time-unix t = ground arith

module _ {D : Type 0} (items : Items D) where
  client-stamped :
      (c : RegisteredClient) → read_client (client_item c) ≡ stamped_client (dynamo_view items) c
  unfolding client_item read_client
  client-stamped c = rw (unix_to_time-unix c.created_at) refl

  code-stamped :
      (c : AuthorizationCode) → read_code (code_item c) ≡ stamped_code (dynamo_view items) c
  unfolding code_item read_code
  code-stamped c = rw (unix_to_time-unix c.expires) refl

  pending-stamped :
      (state : Text) (p : PendingAuth)
      → read_pending (pending_item state p) ≡ stamped_pending (dynamo_view items) p
  unfolding pending_item read_pending
  pending-stamped state p = rw (unix_to_time-unix p.expires) refl

  refresh-stamped :
      (r : RefreshToken) → read_refresh (refresh_item r) ≡ stamped_refresh (dynamo_view items) r
  unfolding refresh_item read_refresh
  refresh-stamped r = rw (unix_to_time-unix r.expires) refl

module _ {D : Type 0} (d : DynamoStore D) (rt : Table D DynamoRefreshItem) (items : Items D)
    (db : IsDatabase d rt items) where
  -- With all four tables configured, the DynamoDB backend keeps every law of the contract, although
  -- its reads of a client are eventually consistent, and a time that it stores comes back as the
  -- whole second that it lies in.
  pub dynamo-Contract : Contract (dynamo_store d) (dynamo_view items)
  unfolding dynamo_store client_item read_client code_item read_code pending_item read_pending
      refresh_item read_refresh
  dynamo-Contract = rw db.has_refresh (record {
    stamp_le = stamp-le;
    get_client_reads = λ s k c h.
        let (raw, found, same) = fetched_of read_client (d.clients.get_item s k) c h in
        (raw, db.clients.get_reads s k raw found, same);
    put_client_keeps =
        λ s c r k ne. HeldAs-iff (λ raw. db.clients.put_keeps s (client_item c) raw k ne);
    put_client_adds = λ s c r k (raw, held, same).
        elim (db.clients.put_adds s (client_item c) raw k held) [
          | inl old ↦ inl (raw, old, same)
          | inr (at_key, is_new) ↦
              inr (at_key, sym same ∙ ap read_client is_new ∙ client-stamped items c)
        ];
    put_client_codes = λ s c. record { at = λ j. rw (db.clients_codes.on_put s (client_item c) j) };
    put_client_pending =
        λ s c. record { at = λ j. rw (db.clients_pending.on_put s (client_item c) j) };
    put_client_refresh =
        λ s c. record { at = λ j. rw (db.clients_refresh.on_put s (client_item c) j) };
    put_code_adds = λ s c.
        put_row-Adds d.codes items.codes (λ raw. raw.code) db.codes read_code s (code_item c) _
          (code-stamped items c);
    put_code_clients = λ s c. record {
      at = λ j r. HeldAs-iff (λ raw. db.codes_clients.on_put s (code_item c) j raw);
    };
    put_code_pending = λ s c. record { at = λ j. rw (db.codes_pending.on_put s (code_item c) j) };
    put_code_refresh = λ s c. record { at = λ j. rw (db.codes_refresh.on_put s (code_item c) j) };
    pop_code_takes = pop_row-Takes d.codes items.codes (λ raw. raw.code) db.codes read_code;
    pop_code_within = pop_row-Within d.codes items.codes (λ raw. raw.code) db.codes read_code;
    pop_code_clients =
        λ s k. record { at = λ j c. HeldAs-iff (λ raw. db.codes_clients.on_delete s k j raw) };
    pop_code_pending = λ s k. record { at = λ j. rw (db.codes_pending.on_delete s k j) };
    pop_code_refresh = λ s k. record { at = λ j. rw (db.codes_refresh.on_delete s k j) };
    put_pending_adds = λ s k p.
        put_row-Adds d.pending items.pending (λ raw. raw.state) db.pending read_pending s
          (pending_item k p) _ (pending-stamped items k p);
    put_pending_clients = λ s k p. record {
      at = λ j c. HeldAs-iff (λ raw. db.pending_clients.on_put s (pending_item k p) j raw);
    };
    put_pending_codes =
        λ s k p. record { at = λ j. rw (db.pending_codes.on_put s (pending_item k p) j) };
    put_pending_refresh =
        λ s k p. record { at = λ j. rw (db.pending_refresh.on_put s (pending_item k p) j) };
    pop_pending_takes =
        pop_row-Takes d.pending items.pending (λ raw. raw.state) db.pending read_pending;
    pop_pending_within =
        pop_row-Within d.pending items.pending (λ raw. raw.state) db.pending read_pending;
    pop_pending_clients =
        λ s k. record { at = λ j c. HeldAs-iff (λ raw. db.pending_clients.on_delete s k j raw) };
    pop_pending_codes = λ s k. record { at = λ j. rw (db.pending_codes.on_delete s k j) };
    pop_pending_refresh = λ s k. record { at = λ j. rw (db.pending_refresh.on_delete s k j) };
    put_refresh_adds = λ s r.
        put_row-Adds rt items.refresh (λ raw. raw.hashed_token) db.refresh read_refresh s
          (refresh_item r) _ (refresh-stamped items r);
    put_refresh_clients = λ s r. record {
      at = λ j c. HeldAs-iff (λ raw. db.refresh_clients.on_put s (refresh_item r) j raw);
    };
    put_refresh_codes =
        λ s r. record { at = λ j. rw (db.refresh_codes.on_put s (refresh_item r) j) };
    put_refresh_pending =
        λ s r. record { at = λ j. rw (db.refresh_pending.on_put s (refresh_item r) j) };
    pop_refresh_takes =
        pop_row-Takes rt items.refresh (λ raw. raw.hashed_token) db.refresh read_refresh;
    pop_refresh_misses =
        pop_row_misses rt items.refresh (λ raw. raw.hashed_token) db.refresh read_refresh;
    pop_refresh_within =
        pop_row-Within rt items.refresh (λ raw. raw.hashed_token) db.refresh read_refresh;
    pop_refresh_clients =
        λ s k. record { at = λ j c. HeldAs-iff (λ raw. db.refresh_clients.on_delete s k j raw) };
    pop_refresh_codes = λ s k. record { at = λ j. rw (db.refresh_codes.on_delete s k j) };
    pop_refresh_pending = λ s k. record { at = λ j. rw (db.refresh_pending.on_delete s k j) };
  })
