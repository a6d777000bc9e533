-- ===== src/Oauth/Examples/Dynamo.antt =====
-- Four tables as maps, on which the theorem about the DynamoDB backend is run.
use buildpulse_mcp.Common.{
  ◌≡◌, ◌⊎◌, ◌∙◌, sym, inl, inr, refl, Text, ◌==◌, eq_iff, Map, get, put, delete, get-delete,
  eq_refl, Option, none, some, Option-cases, Bool-cases, true, List, [], ◌∷◌, if◌then◌else◌, arith,
}
use buildpulse_mcp.Oauth.Store.Contract.{Contract, Takes}
use buildpulse_mcp.Oauth.Store.MemoryContract.{put-Adds, delete-Within}
use buildpulse_mcp.Oauth.Store.Dynamo.{
  DynamoClientItem, DynamoCodeItem, DynamoPendingItem, DynamoRefreshItem, Table, DynamoStore,
  dynamo_store,
}
use buildpulse_mcp.Oauth.Store.DynamoContract.{
  IsTable, IsRegistry, Items, IsDatabase, dynamo_view, dynamo-Contract,
}

record Rows : Type 0 where
  clients : List (Text × DynamoClientItem)
  codes : Map DynamoCodeItem
  pending : Map DynamoPendingItem
  refresh : Map DynamoRefreshItem

-- Every item that was put under the key.
abbrev WasPut : List (Text × DynamoClientItem) → Text → DynamoClientItem → Type 0
WasPut [] k raw = ⊥
WasPut ((j, old) ∷ rest) k raw = ((k ≡ j) × (raw ≡ old)) ⊎ WasPut rest k raw

-- The first item that was put under the key.
abbrev first_put : List (Text × DynamoClientItem) → Text → Option DynamoClientItem
first_put [] k = none
first_put ((j, old) ∷ rest) k = elim (first_put rest k) [
  | some raw ↦ some raw
  | none ↦ if j == k then some old else none
]

-- A read of a client is as stale as it can be.
abbrev clients_table : Table Rows DynamoClientItem
clients_table = record {
  put_item = λ s raw. (true, record s { clients = (raw.client_id, raw) ∷ s.clients });
  get_item = λ s k. some (first_put s.clients k);
  delete_item = λ s k. (none, s);
}

abbrev codes_table : Table Rows DynamoCodeItem
codes_table = record {
  put_item = λ s raw. (true, record s { codes = put s.codes raw.code raw });
  get_item = λ s k. some (get s.codes k);
  delete_item = λ s k. (some (get s.codes k), record s { codes = delete s.codes k });
}

abbrev pending_table : Table Rows DynamoPendingItem
pending_table = record {
  put_item = λ s raw. (true, record s { pending = put s.pending raw.state raw });
  get_item = λ s k. some (get s.pending k);
  delete_item = λ s k. (some (get s.pending k), record s { pending = delete s.pending k });
}

abbrev refresh_table : Table Rows DynamoRefreshItem
refresh_table = record {
  put_item = λ s raw. (true, record s { refresh = put s.refresh raw.hashed_token raw });
  get_item = λ s k. some (get s.refresh k);
  delete_item = λ s k. (some (get s.refresh k), record s { refresh = delete s.refresh k });
}

abbrev items : Items Rows
items = record {
  clients = λ s. WasPut s.clients;
  codes = λ s. get s.codes;
  pending = λ s. get s.pending;
  refresh = λ s. get s.refresh;
}

abbrev tables : DynamoStore Rows
tables = record {
  clients = clients_table;
  codes = codes_table;
  pending = pending_table;
  refresh = some refresh_table;
}

some-injective : {A : Type 0} {a b : A} → some a ≡ some b → a ≡ b
some-injective h = cc

taken-Takes :
    {V : Type 0} (m : Map V) (k : Text) (raw : V)
    → some (get m k) ≡ some (some raw)
    → Takes (get m) (get (delete m k)) k raw
taken-Takes m k raw h = ground (arith, get-delete m k k, eq_refl k)

missed :
    {V : Type 0} (m : Map V) (k : Text) → some (get m k) ≡ some none → get (delete m k) k ≡ none
missed m k h = ground (arith, get-delete m k k, eq_refl k)

first_put-WasPut :
    (m : List (Text × DynamoClientItem)) (k : Text) (raw : DynamoClientItem)
    → first_put m k ≡ some raw
    → WasPut m k raw
first_put-WasPut [] k raw h = absurd (cc)
first_put-WasPut ((j, old) ∷ rest) k raw h = elim (Option-cases (first_put rest k)) [
  | inr (found, e) ↦ inr (first_put-WasPut rest k raw (e ∙ (rw e at h)))
  | inl e ↦ elim (Bool-cases (j == k)) [
    | inl same ↦ inl (sym ((eq_iff j k).0 same), some-injective (sym (rw (e, same) at h)))
    | inr other ↦ absurd (cc (rw (e, other) at h))
  ]
]

clients-IsRegistry : IsRegistry clients_table (λ s. WasPut s.clients) (λ raw. raw.client_id)
clients-IsRegistry = record {
  put_adds = λ s raw old k h. elim h [ inl is_new ↦ inr is_new | inr before ↦ inl before ];
  put_keeps = λ s raw old k ne.
      (λ h. elim h [ inl is_new ↦ absurd (ne is_new.0) | inr before ↦ before ], λ h. inr h);
  get_reads = λ s k raw h. first_put-WasPut s.clients k raw (some-injective h);
}

codes-IsTable : IsTable codes_table (λ s. get s.codes) (λ raw. raw.code)
codes-IsTable = record {
  put_adds = λ s raw. put-Adds s.codes raw.code raw;
  delete_takes = λ s k raw h. taken-Takes s.codes k raw h;
  delete_misses = λ s k h. missed s.codes k h;
  delete_within = λ s k. delete-Within s.codes k;
}

pending-IsTable : IsTable pending_table (λ s. get s.pending) (λ raw. raw.state)
pending-IsTable = record {
  put_adds = λ s raw. put-Adds s.pending raw.state raw;
  delete_takes = λ s k raw h. taken-Takes s.pending k raw h;
  delete_misses = λ s k h. missed s.pending k h;
  delete_within = λ s k. delete-Within s.pending k;
}

refresh-IsTable : IsTable refresh_table (λ s. get s.refresh) (λ raw. raw.hashed_token)
refresh-IsTable = record {
  put_adds = λ s raw. put-Adds s.refresh raw.hashed_token raw;
  delete_takes = λ s k raw h. taken-Takes s.refresh k raw h;
  delete_misses = λ s k h. missed s.refresh k h;
  delete_within = λ s k. delete-Within s.refresh k;
}

rows-IsDatabase : IsDatabase tables refresh_table items
rows-IsDatabase = record {
  has_refresh = refl;
  clients = clients-IsRegistry;
  codes = codes-IsTable;
  pending = pending-IsTable;
  refresh = refresh-IsTable;
  clients_codes = record { on_put = λ s raw k. refl; on_delete = λ s j k. refl };
  clients_pending = record { on_put = λ s raw k. refl; on_delete = λ s j k. refl };
  clients_refresh = record { on_put = λ s raw k. refl; on_delete = λ s j k. refl };
  codes_clients = record {
    on_put = λ s raw k old. (λ h. h, λ h. h);
    on_delete = λ s j k old. (λ h. h, λ h. h);
  };
  codes_pending = record { on_put = λ s raw k. refl; on_delete = λ s j k. refl };
  codes_refresh = record { on_put = λ s raw k. refl; on_delete = λ s j k. refl };
  pending_clients = record {
    on_put = λ s raw k old. (λ h. h, λ h. h);
    on_delete = λ s j k old. (λ h. h, λ h. h);
  };
  pending_codes = record { on_put = λ s raw k. refl; on_delete = λ s j k. refl };
  pending_refresh = record { on_put = λ s raw k. refl; on_delete = λ s j k. refl };
  refresh_clients = record {
    on_put = λ s raw k old. (λ h. h, λ h. h);
    on_delete = λ s j k old. (λ h. h, λ h. h);
  };
  refresh_codes = record { on_put = λ s raw k. refl; on_delete = λ s j k. refl };
  refresh_pending = record { on_put = λ s raw k. refl; on_delete = λ s j k. refl };
}

dynamo-Contract_example : Contract (dynamo_store tables) (dynamo_view items)
dynamo-Contract_example = dynamo-Contract tables refresh_table items rows-IsDatabase
