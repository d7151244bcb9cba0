-- ===== src/Listings.antt =====
-- The calls that only read: `listOwned` and `audit` of the publisher store, `audit` of the release
-- store, `audit` and `get` of the moderation store. An audit trail is kept in the order of its
-- sequence numbers.
use fabushi_backend.Prelude.{
  List, [], ◌∷◌, Option, map, text_Eq, ◌==◌, Result, ok, ◌>>=◌, if◌then◌else◌,
}
use fabushi_backend.Code.{Code}
use fabushi_backend.Text.{Text, Locale}
use fabushi_backend.Table.{Table}
use fabushi_backend.Identity.{RawKey, ReleaseKey, key_Eq, release_key}
use fabushi_backend.Publisher
use fabushi_backend.Publisher.{Namespace, PublicNamespace, public_namespace}
use fabushi_backend.Publisher.Names.{account_id, namespace_name}
use fabushi_backend.Release.Rows as Releases
use fabushi_backend.Artifact.Rows.{text_lt}
use fabushi_backend.Moderation.Rows as Cases
use fabushi_backend.Moderation.Rows.{Case}
use fabushi_backend.Moderation.Reports.{required_case}

-- ORDER BY namespace ASC
insert_by_name : Text × Namespace → List (Text × Namespace) → List (Text × Namespace)
insert_by_name a [] = a ∷ []
insert_by_name a (b ∷ rest) =
    let later = insert_by_name a rest in if text_lt b.0 a.0 then b ∷ later else a ∷ b ∷ rest

owned_by : Text → Table Text Namespace → List (Text × Namespace)
unfolding insert_by_name
owned_by owner [] = []
owned_by owner (row ∷ rest) =
    let others = owned_by owner rest in
    if row.1.owner_account_id == owner then insert_by_name row others else others

unfoldable pub list_owned : Publisher.Store → Option Text → Result Code (List PublicNamespace)
unfolding owned_by
list_owned st actor = do
  owner ← account_id actor
  ok (map (λ row. public_namespace row.0 row.1) (owned_by owner st.namespaces))

entries_of_namespace : Text → List Publisher.AuditEntry → List Publisher.AuditEntry
entries_of_namespace name [] = []
entries_of_namespace name (e ∷ es) =
    let rest = entries_of_namespace name es in if e.namespace == name then e ∷ rest else rest

entries_of_release : ReleaseKey → List Releases.AuditEntry → List Releases.AuditEntry
entries_of_release key [] = []
entries_of_release key (e ∷ es) =
    let rest = entries_of_release key es in if e.key == key then e ∷ rest else rest

entries_of_case : Text → List Cases.AuditEntry → List Cases.AuditEntry
entries_of_case id [] = []
entries_of_case id (e ∷ es) =
    let rest = entries_of_case id es in if e.case_id == id then e ∷ rest else rest

module _ (l : Locale) where
  unfoldable pub namespace_audit :
      Publisher.Store → Option Text → Result Code (List Publisher.AuditEntry)
  unfolding entries_of_namespace
  namespace_audit st namespace = do
    name ← namespace_name l namespace
    ok (entries_of_namespace name st.audit)

  unfoldable pub release_audit :
      {D : Type 0} → Releases.Store D → RawKey → Result Code (List Releases.AuditEntry)
  unfolding entries_of_release
  release_audit st raw = do key ← release_key l raw; ok (entries_of_release key st.audit)

unfoldable pub case_audit : Cases.Store → Option Text → Result Code (List Cases.AuditEntry)
unfolding entries_of_case
case_audit st raw = do (id, row) ← required_case st raw; ok (entries_of_case id st.audit)

-- `get`
unfoldable pub get_case : Cases.Store → Option Text → Result Code (Text × Case)
get_case st raw = required_case st raw
