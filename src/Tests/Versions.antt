-- ===== src/Tests/Versions.antt =====
-- Versions in order, and three of them that are in none.
use fabushi_backend.Prelude.{ℕ, ◌+◌, ◌-◌, ◌*◌, ◌≡◌, ◌↔◌, refl, [], ◌∷◌, arith, text_beq}
use fabushi_backend.Text
use fabushi_backend.Text.{Text, codes}
use fabushi_backend.Text.Pattern
use fabushi_backend.Text.Split
use fabushi_backend.Release.Versions
use fabushi_backend.Release.Precedence.{IsNumber, Precedes}
use fabushi_backend.Release.Written.{
  Writes, writes, staged, released, build, no_build, compare_versions-Precedes,
}
use fabushi_backend.Release.Versions.{
  Semver, parse_semver, Sign, less, same, greater, flip, then_by, Collation, compare_numbers,
  compare_versions,
}

abbrev digits_number : ℕ → Text → ℕ
digits_number acc [] = acc
digits_number acc (c ∷ s) = digits_number (acc * 10 + (c - 48)) s

abbrev compare_units : Text → Text → Sign
compare_units [] [] = same
compare_units [] (d ∷ t) = less
compare_units (c ∷ s) [] = greater
compare_units (c ∷ s) (d ∷ t) = then_by (compare_numbers c d) (compare_units s t)

compare_units-flip : (s t : Text) → compare_units t s ≡ flip (compare_units s t)
unfolding flip compare_numbers
compare_units-flip [] [] = refl
compare_units-flip [] (d ∷ t) = refl
compare_units-flip (c ∷ s) [] = refl
compare_units-flip (c ∷ s) (d ∷ t) = ground (arith, compare_units-flip s t)

-- By code units, with numbers that are not rounded.
abbrev by_units : Collation
by_units = record {
  number = digits_number 0;
  compare = compare_units;
  compare_flip = compare_units-flip;
}

-- A leading zero makes two versions the same as a third, although they are not the same.
unordered :
    (compare_versions by_units (codes "1.0.0-1.a") (codes "1.0.0-01") ≡ same)
    × (compare_versions by_units (codes "1.0.0-01") (codes "1.0.0-1.b") ≡ same)
    × (compare_versions by_units (codes "1.0.0-1.a") (codes "1.0.0-1.b") ≡ less)
unfolding text_beq Text.is_empty Pattern.skip_digits Pattern.is_suffix_char Split.split_on
    Versions.compare_versions compare_numbers
unordered = (refl, refl, refl)

abbrev first_release : Semver
first_release = record { major = 1; minor = 0; patch = 0; prerelease = [] }

abbrev candidate : Semver
candidate = record first_release { prerelease = codes "rc" ∷ codes "2" ∷ [] }

one : IsNumber (codes "1")
one = (λ is. ground arith, ground arith)

nought : IsNumber (codes "0")
nought = (λ is. ground arith, ground arith)

candidate_written : Writes by_units (codes "1.0.0-rc.2+b7") candidate
unfolding Split.split_on
candidate_written =
    writes {major = codes "1"} {minor = codes "0"} {patch = codes "0"} {last = codes "-rc.2+b7"} one
      nought nought
      (staged {s = codes "rc.2"} {b = codes "+b7"} (λ is. ground arith) (ground arith)
        (build (λ is. ground arith) (ground arith)))

first_release_written : Writes by_units (codes "1.0.0") first_release
first_release_written =
    writes {major = codes "1"} {minor = codes "0"} {patch = codes "0"} {last = []} one nought nought
      (released no_build)

compare_versions-Precedes_example :
    (compare_versions by_units (codes "1.0.0-rc.2+b7") (codes "1.0.0") ≡ less
      ↔ Precedes by_units candidate first_release)
    × (compare_versions by_units (codes "1.0.0-rc.2+b7") (codes "1.0.0") ≡ greater
        ↔ Precedes by_units first_release candidate)
compare_versions-Precedes_example =
    compare_versions-Precedes by_units (codes "1.0.0-rc.2+b7") (codes "1.0.0") candidate
      first_release candidate_written first_release_written
