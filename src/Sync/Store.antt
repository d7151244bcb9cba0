-- ===== src/Sync/Store.antt =====
-- The tables of the account synchronisation: the log, the cloud storage of mini apps, the agents and
-- their objects, with the statements that write them.
use fabushi_backend.Prelude.{
  ℕ, suc, ◌&&◌, List, [], ◌∷◌, none, some, text_Eq, pair_Eq, ◌==◌, if◌then◌else◌,
}
use fabushi_backend.Text.{Text}
use fabushi_backend.Json.{Json}
use fabushi_backend.Table
use fabushi_backend.Table.{Table}
use fabushi_backend.Sync.Log.{Log, Entry, append_event, empty_log}

-- A row of `miniapp_cloud_storage`, less its key: the account, the mini app and the storage key.
pub record CloudValue : Type 0 where
  pub value : Text
  pub revision : ℕ
  pub updated_at_ms : ℕ

-- A row of `account_agents`, less its key.
pub record Agent : Type 0 where
  pub profile : Json
  pub metadata : Json
  pub created_at_ms : ℕ
  pub updated_at_ms : ℕ

-- A row of `account_agent_blobs`, less its key. The column size_bytes is the length of `bytes`, which is the column data.
pub record Blob : Type 0 where
  pub sha256 : Text
  pub bytes : List ℕ
  pub created_at_ms : ℕ

-- A row of `account_agent_refs`, less its key.
pub record Ref : Type 0 where
  pub blob_id : Text
  pub etag : Text
  pub revision : ℕ
  pub updated_at_ms : ℕ

-- the three texts of a primary key
abbrev pub Key : Type 0
Key = Text × (Text × Text)

pub record Store : Type 0 where
  pub log : Log
  pub cloud : Table Key CloudValue
  pub agents : Table (Text × Text) Agent
  pub blobs : Table Key Blob
  pub refs : Table Key Ref

abbrev pub empty_store : Store
empty_store = record { log = empty_log; cloud = []; agents = []; blobs = []; refs = [] }

-- The statements `cloudCount` and `agentRefCount`: COUNT(*) under the first two columns of the key.
unfoldable pub count_under : {V : Type 0} → Table Key V → Text → Text → ℕ
count_under [] account app = 0
count_under (((a, (b, c)), v) ∷ t) account app =
    let rest = count_under t account app in if (a == account) && (b == app) then suc rest else rest

-- INSERT OR IGNORE, the statement `insertAgentBlob`
unfoldable pub insert_blob : Table Key Blob → Key → Blob → Table Key Blob
insert_blob t key blob = elim (Table.get t key) [
  | some existing ↦ t
  | none ↦ Table.insert t key blob
]

-- `#appendEvent`
unfoldable pub append : ℕ → Store → Entry → Store
append retention st e = record st { log = append_event retention st.log e }
