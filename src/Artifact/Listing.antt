-- ===== src/Artifact/Listing.antt =====
-- The listing of a release's artifacts under the statements that write artifacts.
use fabushi_backend.Prelude.{
  ◌≡◌, refl, true, false, ◌&&◌, List, [], ◌∷◌, some, arith, pair_Eq, text_Eq,
}
use fabushi_backend.Text.{Text}
use fabushi_backend.Table
use fabushi_backend.Table.{Table}
use fabushi_backend.Identity.{ReleaseKey, key_Eq, key_beq, key_beq_iff}
use fabushi_backend.Artifact.Rows.{Artifact, is_passed, insert_sorted, rows_of}
use fabushi_backend.Artifact.Scans.{all_passed}

abbrev Artifacts : Type 0
Artifacts = Table (ReleaseKey × Text) Artifact

-- A write to an artifact of one release does not show in the listing of another.
pub rows_of-insert_ne :
    (t : Artifacts) (k j : ReleaseKey) (id : Text) (row : Artifact)
    → key_beq k j ≡ false
    → rows_of (Table.insert t (k, id) row) j ≡ rows_of t j
unfolding rows_of Table.insert
rows_of-insert_ne t k j id row h = rw h

pub rows_of-update_ne :
    (t : Artifacts) (k j : ReleaseKey) (id : Text) (f : Artifact → Artifact)
    → key_beq k j ≡ false
    → rows_of (Table.update t (k, id) f) j ≡ rows_of t j
unfolding rows_of Table.update
rows_of-update_ne [] k j id f h = refl
rows_of-update_ne (((i, x), row) ∷ t) k j id f h =
    ground
      (arith, rows_of-update_ne t k j id f h, key_beq_iff i k, key_beq_iff i j, key_beq_iff k j)

all_passed-insert_sorted :
    (a : Text × Artifact) (rows : List (Text × Artifact))
    → all_passed (insert_sorted a rows) ≡ (is_passed a.1.scan_state && all_passed rows)
unfolding insert_sorted
all_passed-insert_sorted a [] = refl
all_passed-insert_sorted a (b ∷ rows) = ground (arith, all_passed-insert_sorted a rows)

-- Where all listed artifacts have passed, each artifact of the release has.
pub passed_of_all_passed :
    (t : Artifacts) (k : ReleaseKey) (id : Text) (row : Artifact)
    → all_passed (rows_of t k) ≡ true
    → Table.get t (k, id) ≡ some row
    → is_passed row.scan_state ≡ true
unfolding rows_of Table.get
passed_of_all_passed [] k id row h e = cc
passed_of_all_passed (((i, x), r) ∷ t) k id row h e = ground (
  arith,
  passed_of_all_passed t k id row,
  all_passed-insert_sorted (x, r) (rows_of t k),
  key_beq_iff i k,
)
