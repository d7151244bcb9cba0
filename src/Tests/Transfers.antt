-- ===== src/Tests/Transfers.antt =====
-- A namespace that alice claims, offers to bob and takes back or hands over.
use fabushi_backend.Prelude.{◌≡◌, refl, false, [], ◌∷◌, Option, some, ok, text_beq, text_Eq}
use fabushi_backend.Text
use fabushi_backend.Text.{Text, codes, trim, is_empty}
use fabushi_backend.Text.Pattern
use fabushi_backend.Table
use fabushi_backend.Identity
use fabushi_backend.Identity.{ReleaseKey, RawKey, normalized_key}
use fabushi_backend.Code.{invalid_release_identity, invalid_release_version}
use fabushi_backend.Publisher
use fabushi_backend.Publisher.{Store, propose_transfer, cancel_transfer}
use fabushi_backend.Publisher.Secrets
use fabushi_backend.Publisher.Names
use fabushi_backend.Publisher.Names.{account_id, claimable_namespace}
use fabushi_backend.Publisher.Calls as Publishers
use fabushi_backend.Publisher.Calls.{Request, view, owner_of, offered}
use fabushi_backend.Tests.Fixtures.{ascii_locale}
use fabushi_backend.Tests.History.{alice, creation, tool}

abbrev pub bob : Option Text
bob = some (codes " bob ")

abbrev pub acme : Option Text
acme = some (codes "Acme")

abbrev pub transfer : Text
transfer = codes "t1"

abbrev pub claimed : Store
claimed = Publishers.run ascii_locale Publisher.empty (creation ∷ [])

abbrev pub proposal : Request
proposal = record { namespace = acme; account = alice; call = Publishers.proposes bob transfer 2 }

abbrev pub acceptance : Request
acceptance = record { namespace = acme; account = bob; call = Publishers.accepts (some transfer) 3 }

abbrev pub offering : Store
offering = Publishers.run ascii_locale Publisher.empty (creation ∷ proposal ∷ [])

pub bob_known : account_id bob ≡ ok (codes "bob")
unfolding Text.is_space Text.drop_space Text.trim Text.text_or Text.is_empty Names.account_id
bob_known = refl

pub transfer_trimmed : (trim transfer ≡ transfer) × (is_empty transfer ≡ false)
unfolding Text.is_space Text.drop_space Text.trim Text.is_empty
transfer_trimmed = (refl, refl)

abbrev pub shouting : RawKey
shouting = record {
  kind = some (codes " Plugin");
  namespace = some (codes "ACME ");
  name = some (codes "tool");
  version = some (codes "1.0.0 ");
}

-- The namespace and the key as they are normalised, the owner after the offer, the offer itself
-- and its withdrawal.
pub story :
    (claimable_namespace ascii_locale acme ≡ ok (codes "acme"))
    × (normalized_key ascii_locale invalid_release_identity invalid_release_version shouting
        ≡ ok tool)
    × (owner_of (view (Table.get offering.namespaces (codes "acme"))) ≡ some (codes "alice"))
    × ((st' : Store) × (propose_transfer ascii_locale claimed acme alice bob transfer 2 ≡ ok st'))
    × ((st' : Store) × (cancel_transfer ascii_locale offering acme alice 4 ≡ ok st'))
unfolding text_beq Text.is_space Text.drop_space Text.trim Text.text_or Text.or_else Text.is_empty
    Text.has Text.is_ascii_lower Pattern.is_component_start Pattern.is_component_char
    Pattern.component_pattern Pattern.skip_digits Pattern.skip_number Pattern.skip_dot
    Pattern.then_number Pattern.is_suffix_char Pattern.version_suffix Pattern.version_pattern
    Table.get Table.insert Table.update Table.delete Table.upsert Identity.normalized_version
    Identity.normalized_component Identity.normalized_key Identity.release_key
    Identity.artifact_release_key Publisher.truthy Publisher.public_namespace
    Publisher.new_namespace Publisher.add_audit Publisher.owned Publisher.assert_owned
    Publisher.create Secrets.fold_case Secrets.starts_with Secrets.includes Secrets.secret_field
    Names.display_name Names.account_id Names.namespace_name Names.claimable_namespace
    Publishers.dispatch Publishers.step Secrets.assert_no_secrets Publisher.write
    Publisher.set_transfer Publisher.set_owner Publisher.clear_transfer Publisher.propose_transfer
    Publisher.cancel_transfer Publishers.run
story = (refl, refl, refl, (_, refl), (_, refl))
