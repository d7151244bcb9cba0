-- ===== src/Sync/Agents.antt =====
-- The objects of an agent: `putAgentObject`, `getAgentObject`, `deleteAgentObject`, and the agent that
-- `upsertAgent` makes for the first object.
use fabushi_backend.Prelude.{
  ℕ, zero, suc, Bool, true, false, ◌&&◌, ◌||◌, not, List, [], ◌∷◌, ◌++◌, Option, none, some, length,
  ltb, leb, is_some, text_Eq, pair_Eq, ◌==◌, Result, ok, err, throw_if, ◌>>=◌, ◌>>◌, if◌then◌else◌,
}
use fabushi_backend.Text.{Text, codes}
use fabushi_backend.Json.{Json, text, number, flag, null, obj, end, field}
use fabushi_backend.Json.Print.{stringify}
use fabushi_backend.Table
use fabushi_backend.Sync.Log.{
  Error, Entry, sync_account, agent_object_too_large, too_many_agent_objects,
  conflict_copy_mismatch, out_of_fuel,
}
use fabushi_backend.Sync.Names.{agent_id, agent_path}
use fabushi_backend.Sync.Store.{Blob, Ref, Key, Store, count_under, insert_blob, append}

-- SHA-256 in hexadecimal: of bytes, and of the UTF-8 encoding of a text.
pub record Sha256 : Type 0 where
  pub of_bytes : List ℕ → Text
  pub of_text : Text → Text

abbrev pub max_agent_object_bytes : ℕ
max_agent_object_bytes = 8388608

abbrev pub max_agent_objects : ℕ
max_agent_objects = 20000

-- `normalizeAgentProfile` of an agent that is given nothing but its id
unfoldable pub new_profile : Text → Json
new_profile id = obj (
    field (codes "agentId") (text id) (
      field (codes "name") (text (codes "New Agent")) (
        field (codes "description") (text []) (
          field (codes "title") (text [])
            (field (codes "avatarShape") (text []) (field (codes "avatarColor") (text []) end))))))

-- `normalizeAgentMetadata`, likewise
unfoldable pub new_metadata : Text → ℕ → Json
new_metadata id now = obj (
    field (codes "agentId") (text id) (
      field (codes "latestRootBlobId") (text []) (
        field (codes "name") (text (codes "New Agent")) (
          field (codes "mode") (text (codes "default")) (
            field (codes "isRunEverything") (flag false)
              (field (codes "createdAt") (number now) end))))))

unfoldable pub agent_created : Text → Text → ℕ → Entry
unfolding new_profile new_metadata
agent_created account id now = record {
  account = account;
  event_type = codes "agent.created";
  entity_id = id;
  payload = obj (
      field (codes "agentId") (text id) (
        field (codes "profile") (new_profile id)
          (field (codes "metadata") (new_metadata id now) end)));
  now = now;
}

-- `if (!this.s.getAgent.get(…)) this.upsertAgent(accountId, agentId, {})`
unfoldable pub ensure_agent : ℕ → Store → Text → Text → ℕ → Store
unfolding append agent_created new_profile new_metadata
ensure_agent retention st account id now = elim (Table.get st.agents (account, id)) [
  | some agent ↦ st
  | none ↦ record (append retention st (agent_created account id now)) {
    agents =
        Table.upsert st.agents (account, id)
          (record {
            profile = new_profile id;
            metadata = new_metadata id now;
            created_at_ms = now;
            updated_at_ms = now;
          });
  }
]

-- The account, the agent and the path that a call names.
unfoldable pub object_key : Option Text → Option Text → Option Text → Result Error Key
unfolding sync_account agent_id agent_path
object_key account agent path = do
  a ← sync_account account
  g ← agent_id agent
  p ← agent_path path
  ok (a, (g, p))

-- What `getAgentObject` returns, less the agent, and with the blob for its fields.
pub record Object : Type 0 where
  pub path : Text
  pub blob : Blob
  pub ref : Ref

unfoldable pub object_of : Text → Ref → Option Blob → Option Object
object_of path ref none = none
object_of path ref (some blob) = some (record { path = path; blob = blob; ref = ref })

-- `getAgentRef` and `getAgentBlob`, one after the other
unfoldable pub object_at : Store → Key → Option Object
unfolding object_of
object_at st (a, (g, p)) = elim (Table.get st.refs (a, (g, p))) [
  | none ↦ none
  | some ref ↦ object_of p ref (Table.get st.blobs (a, (g, ref.blob_id)))
]

unfoldable pub get_object :
    Store → Option Text → Option Text → Option Text → Result Error (Option Object)
unfolding object_key object_at
get_object st account agent path = do key ← object_key account agent path; ok (object_at st key)

pub record Options : Type 0 where
  pub base_etag : Option Text
  pub expect_absent : Bool

-- `previous?.etag`
abbrev pub etag_of : Option Ref → Option Text
etag_of none = none
etag_of (some ref) = some ref.etag

-- `baseEtag !== null && previous?.etag !== baseEtag`
unfoldable pub is_stale : Option Text → Option Text → Bool
is_stale none current = false
is_stale (some base) none = true
is_stale (some base) (some current) = not (current == base)

unfoldable pub is_conflict : Options → Option Ref → Bool
unfolding is_stale
is_conflict o previous =
    (o.expect_absent && is_some previous) || is_stale o.base_etag (etag_of previous)

abbrev pub text_or_null : Option Text → Json
text_or_null none = null
text_or_null (some s) = text s

-- The directory of the copies of one conflict.
unfoldable pub conflict_suffix : Sha256 → Text → Options → Option Ref → Text → Text
conflict_suffix h path o previous digest = h.of_text (
    stringify (
      obj (
        field (codes "path") (text path) (
          field (codes "baseEtag") (text_or_null o.base_etag) (
            field (codes "expectAbsent") (flag o.expect_absent) (
              field (codes "currentEtag") (text_or_null (etag_of previous))
                (field (codes "sha256") (text digest) end)))))))

unfoldable pub conflict_copy_path : Sha256 → Text → Options → Option Ref → Text → Result Error Text
unfolding conflict_suffix
conflict_copy_path h path o previous digest =
    agent_path
      (some (codes ".conflicts/" ++ conflict_suffix h path o previous digest ++ b'/' ∷ path))

-- The outcome of a call: the object was written, a copy that was there was found, or there is a
-- conflict, with the path of the copy, the current etag and the outcome for the copy.
pub data Outcome : Type 0 where
  written : Text → Ref → Outcome
  found : Object → Outcome
  conflict : Text → Text → Option Text → Outcome → Outcome

unfoldable pub object_written : Key → Text → ℕ → ℕ → Entry
object_written (account, (agent, path)) digest size now = record {
  account = account;
  event_type = codes "agent.store.written";
  entity_id = agent ++ b':' ∷ path;
  payload = obj (
      field (codes "agentId") (text agent) (
        field (codes "path") (text path) (
          field (codes "blobId") (text digest)
            (field (codes "sha256") (text digest) (field (codes "sizeBytes") (number size) end)))));
  now = now;
}

unfoldable pub new_ref : Text → ℕ → ℕ → Ref
new_ref digest revision now = record {
  blob_id = digest;
  etag = codes "sha256:" ++ digest;
  revision = revision;
  updated_at_ms = now;
}

-- the blob, the event and the ref
unfoldable pub write_object : ℕ → Store → Key → List ℕ → Text → ℕ → Store
unfolding insert_blob append object_written new_ref
write_object retention st (account, (agent, path)) bytes digest now =
    record (append retention st
      (object_written (account, (agent, path)) digest (length bytes) now)) {
        blobs =
            insert_blob st.blobs (account, (agent, digest))
              (record { sha256 = digest; bytes = bytes; created_at_ms = now });
        refs = Table.upsert st.refs (account, (agent, path)) (new_ref digest (suc st.log.last) now);
      }

-- A path that has no object yet, where the agent has as many objects as it may.
unfoldable pub is_full : Store → Key → Bool
unfolding count_under
is_full st key =
    not (is_some (Table.get st.refs key))
    && leb max_agent_objects (count_under st.refs key.0 key.1.0)

-- The conflict, with what becomes of its copy.
abbrev conflict_with : Text → Text → Option Text → Store × Outcome → Store × Outcome
conflict_with path copy current (st, stored) = (st, conflict path copy current stored)

module _ (h : Sha256) (retention : ℕ) where
  -- The names and the state in which the object is looked up.
  unfoldable pub open_object :
      Store → Option Text → Option Text → Option Text → List ℕ → ℕ → Result Error (Store × Key)
  unfolding object_key ensure_agent is_full
  open_object st account agent path bytes now = do
    key ← object_key account agent path
    throw_if (ltb max_agent_object_bytes (length bytes)) agent_object_too_large
    throw_if (is_full (ensure_agent retention st key.0 key.1.0 now) key) too_many_agent_objects
    ok (ensure_agent retention st key.0 key.1.0 now, key)

  -- The copy that is there, if it is one of the same bytes; `put` makes one if there is none.
  unfoldable pub put_copy :
      Store → Option Object → Text → Result Error (Store × Outcome) → Result Error (Store × Outcome)
  put_copy st none digest put = put
  put_copy st (some existing) digest put =
      if existing.blob.sha256 == digest then ok (st, found existing) else err conflict_copy_mismatch

  -- `#putAgentObject`. The fuel bounds the nesting of copies of copies.
  unfoldable pub put_object :
      ℕ
      → Store
      → Option Text
      → Option Text
      → Option Text
      → List ℕ
      → Options
      → ℕ
      → Result Error (Store × Outcome)
  unfolding open_object is_conflict conflict_copy_path get_object write_object put_copy
  put_object zero st account agent path bytes o now = err out_of_fuel
  put_object (suc fuel) st account agent path bytes o now = do
    (known, key) ← open_object st account agent path bytes now
    let previous = Table.get known.refs key
    let digest = h.of_bytes bytes
    elim (is_conflict o previous) [
      | true ↦ do
        copy ← conflict_copy_path h key.1.1 o previous digest
        existing ← get_object known (some key.0) (some key.1.0) (some copy)
        stored ← put_copy known existing digest (
            put_object fuel known (some key.0) (some key.1.0) (some copy) bytes
              (record { base_etag = none; expect_absent = true }) now)
        ok (conflict_with key.1.1 copy (etag_of previous) stored)
      | false ↦ ok (
        write_object retention known key bytes digest now,
        written key.1.1 (new_ref digest (suc known.log.last) now),
      )
    ]

-- Nothing was there, the etag is not the current one, or the object was deleted by the event.
pub data Deletion : Type 0 where
  absent : Deletion
  kept : Text → Deletion
  deleted : ℕ → Deletion

unfoldable pub object_deleted : Key → ℕ → Entry
object_deleted (account, (agent, path)) now = record {
  account = account;
  event_type = codes "agent.store.deleted";
  entity_id = agent ++ b':' ∷ path;
  payload = obj (field (codes "agentId") (text agent) (field (codes "path") (text path) end));
  now = now;
}

-- `#deleteAgentObject`. The blob stays.
unfoldable pub delete_object :
    ℕ
    → Store
    → Option Text
    → Option Text
    → Option Text
    → Option Text
    → ℕ
    → Result Error (Store × Deletion)
unfolding object_key is_stale append object_deleted
delete_object retention st account agent path base_etag now = do
  key ← object_key account agent path
  elim (Table.get st.refs key) [
    | none ↦ ok (st, absent)
    | some previous ↦
        if is_stale base_etag (some previous.etag)
        then ok (st, kept previous.etag)
        else ok (
          record (append retention st (object_deleted key now)) { refs = Table.delete st.refs key },
          deleted (suc st.log.last),
        )
  ]
