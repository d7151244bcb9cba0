-- ===== src/Tests/Rotation.antt =====
-- The marketplace rotates to a second signer and withdraws the key of the first.
use fabushi_backend.Prelude.{◌≡◌, refl, true, none, some, ok, after, text_beq}
use fabushi_backend.Text
use fabushi_backend.Text.{Text, codes}
use fabushi_backend.Table
use fabushi_backend.Published.{Envelope}
use fabushi_backend.Signing.Rows as Rows
use fabushi_backend.Signing.Rows.{Store, Signer, empty, new_trust_key}
use fabushi_backend.Signing.Keys
use fabushi_backend.Signing.Keys.{start, revoke_trust_key, key_id, positive_epoch}
use fabushi_backend.Signing.Releases as Signatures
use fabushi_backend.Signing.Releases.{new_envelope, trusted}
use fabushi_backend.Tests.Fixtures.{toy_crypto}
use fabushi_backend.Tests.History.{signer}

abbrev pub second : Signer
second = record signer { key_id = codes "k2"; trust_epoch = 2 }

abbrev pub rotated : Store
rotated = after empty (start (after empty (start empty (some signer) 1)) (some second) 2)

abbrev pub first_envelope : Envelope
first_envelope = new_envelope toy_crypto signer (codes "release") 1

-- The first key is withdrawn, and had been trusted.
pub first_withdrawn :
    (key_id (some (codes " k1")) ≡ ok (codes "k1"))
    × (positive_epoch (some 1) ≡ ok 1)
    × ((st' : Store) × (revoke_trust_key rotated (some (codes " k1")) (some 1) none 3 ≡ ok st'))
    × (trusted toy_crypto rotated first_envelope ≡ true)
unfolding text_beq Text.is_space Text.drop_space Text.trim Text.text_or Table.get Table.insert
    Table.update Rows.is_active Rows.new_trust_key Rows.set_withdrawn Rows.verify_envelope
    Keys.positive_epoch Keys.key_id_pattern Keys.key_id Keys.same_material Keys.register_signer
    Keys.start Keys.is_signer Keys.revoke_trust_key Signatures.new_envelope Signatures.trusts
    Signatures.trusted
first_withdrawn = (refl, refl, (_, refl), refl)
