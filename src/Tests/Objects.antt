-- ===== src/Tests/Objects.antt =====
-- An agent of alice's with one object, and a put that finds it changed.
use fabushi_backend.Prelude.{
  ℕ, ◌≡◌, refl, false, List, [], ◌∷◌, Option, none, some, ok, err, text_beq,
}
use fabushi_backend.Text
use fabushi_backend.Text.{Text, codes}
use fabushi_backend.Table
use fabushi_backend.Sync.Log.{invalid_agent_path, invalid_cloud_key, cloud_key_refused}
use fabushi_backend.Sync.Names
use fabushi_backend.Sync.Names.{agent_path}
use fabushi_backend.Sync.Store.{Store, Key, empty_store}
use fabushi_backend.Sync.Cloud
use fabushi_backend.Sync.Cloud.{cloud_key, set_cloud_value}
use fabushi_backend.Sync.Agents
use fabushi_backend.Sync.Agents.{Sha256, Options, Outcome, put_object, object_key}
use fabushi_backend.Sync.Calls
use fabushi_backend.Sync.Calls.{Call, sets, puts, run, copy_fuel}
use fabushi_backend.Tests.Fixtures.{ascii_locale}

-- The digest of bytes is the bytes.
abbrev pub toy_sha256 : Sha256
toy_sha256 = record { of_bytes = λ bytes. bytes; of_text = λ s. codes "c1" }

abbrev pub owner : Option Text
owner = some (codes "alice")

abbrev pub helper : Option Text
helper = some (codes "helper")

abbrev pub notes : Option Text
notes = some (codes "notes/./today")

abbrev pub notes_key : Key
notes_key = (codes "alice", (codes "helper", codes "notes/today"))

abbrev pub anyway : Options
anyway = record { base_etag = none; expect_absent = false }

abbrev pub stale : Options
stale = record { base_etag = some (codes "sha256:z"); expect_absent = false }

abbrev pub filed : List (ℕ × Call)
filed =
    (1, sets owner (some (codes "game")) (some (codes "score")) (some (codes "12")))
    ∷ (2, puts owner helper notes (codes "a") anyway)
    ∷ []

abbrev pub shelf : Store
shelf = run ascii_locale toy_sha256 16 empty_store filed

pub notes_named : object_key owner helper notes ≡ ok notes_key
unfolding text_beq Text.is_space Text.drop_space Text.trim Text.text_or Text.is_empty
    Agents.object_key
notes_named = refl

pub notes_clash :
    (st' : Store) × (out : Outcome) × (put_object toy_sha256 16 copy_fuel shelf owner helper notes
        (codes "b")
        stale
        3
      ≡ ok (st', out))
unfolding text_beq Text.is_space Text.drop_space Text.trim Text.text_or Text.is_empty
    Agents.put_object Table.get Calls.run Calls.step Cloud.set_cloud_value Names.byte_length
    Table.upsert
notes_clash = (_, _, refl)

-- A path is not what it is normalised to again: the object at the first path is filed under the
-- second, by which it cannot be fetched.
space_kept :
    (agent_path (some (codes "./ /etc")) ≡ ok (codes " /etc"))
    × (agent_path (some (codes " /etc")) ≡ err invalid_agent_path)
unfolding text_beq Text.is_space Text.drop_space Text.trim Text.text_or Text.is_empty
    Names.agent_path
space_kept = (refl, refl)

abbrev pub score_key : Key
score_key = (codes "alice", (codes "game", codes "score"))

pub score_named :
    cloud_key ascii_locale invalid_cloud_key owner (some (codes "game")) (some (codes "score"))
    ≡ ok score_key
unfolding text_beq Text.is_space Text.drop_space Text.trim Text.text_or Text.is_empty
    Cloud.cloud_key
score_named = refl

pub score_again :
    cloud_key ascii_locale cloud_key_refused owner (some (codes " Game")) (some (codes "score"))
    ≡ ok score_key
unfolding text_beq Text.is_space Text.drop_space Text.trim Text.text_or Text.is_empty
    Cloud.cloud_key
score_again = refl

pub score_set :
    (st' : Store) × (revision : ℕ) × (set_cloud_value ascii_locale 16 empty_store owner
        (some (codes "game"))
        (some (codes "score"))
        (some (codes "13"))
        4
      ≡ ok (st', revision))
unfolding text_beq Text.is_space Text.drop_space Text.trim Text.text_or Text.is_empty
    Cloud.set_cloud_value Names.byte_length Table.get
score_set = (_, _, refl)
