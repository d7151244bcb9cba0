-- ===== src/Fdn/Broker/Keys.antt =====
-- `authKeyPrefix` and `resolvePreAuthKeyId`: the identifier of a key that was minted, in the listing
-- of the keys of Headscale.
use fabushi_backend.Prelude.{
  ℕ, Bool, false, ◌&&◌, not, List, [], ◌∷◌, ◌++◌, Option, none, some, length, take, filter, every,
  nat_beq, text_Eq, ◌==◌, Result, ok, throw_if, or_throw, ◌>>=◌, ◌>>◌,
}
use fabushi_backend.Text.{Text, codes}
use fabushi_backend.Fdn.Broker.Rows.{
  Error, headscale_key_invalid, preauth_key_correlation_failed, KeyRow,
}
use fabushi_backend.Fdn.Broker.Names.{behind_prefix, bounded_text, is_word_char, is_positive}

-- What stands behind the first twelve characters of a key.
unfoldable pub behind_twelve : Text → Text
behind_twelve (_ ∷ _ ∷ _ ∷ _ ∷ _ ∷ _ ∷ _ ∷ _ ∷ _ ∷ _ ∷ _ ∷ _ ∷ rest) = rest
behind_twelve s = []

-- [A-Za-z0-9_-]{12}-[A-Za-z0-9_-]{64}$
unfoldable pub key_pattern : Text → Bool
unfolding behind_twelve
key_pattern s = nat_beq (length s) 77 && every is_word_char s && dash_first (behind_twelve s)
  where
    dash_first : Text → Bool
    dash_first [] = false
    dash_first (c ∷ rest) = nat_beq c b'-'

unfoldable pub auth_key_prefix : Text → Result Error Text
unfolding behind_prefix key_pattern
auth_key_prefix raw = do
  rest ← or_throw (behind_prefix (codes "hskey-auth-") raw) headscale_key_invalid
  throw_if (not (key_pattern rest)) headscale_key_invalid
  ok (codes "hskey-auth-" ++ take 12 rest ++ codes "-***")

-- `row.key === masked`
abbrev pub is_text : Option Text → Text → Bool
is_text none s = false
is_text (some t) s = t == s

-- A row that is null is none.
unfoldable pub is_key_of : Text → Text → Option KeyRow → Bool
unfolding bounded_text
is_key_of masked cell none = false
is_key_of masked cell (some row) = is_text row.key masked && (bounded_text row.owner 128 == cell)

-- the only row, if there is exactly one
abbrev pub the_only : {A : Type 0} → List (Option A) → Option A
the_only (row ∷ []) = row
the_only rows = none

unfoldable pub resolve_pre_auth_key_id : List (Option KeyRow) → Text → Text → Result Error ℕ
unfolding auth_key_prefix is_key_of
resolve_pre_auth_key_id rows raw cell = do
  masked ← auth_key_prefix raw
  row ← or_throw (the_only (filter (is_key_of masked cell) rows)) preauth_key_correlation_failed
  id ← or_throw row.id preauth_key_correlation_failed
  throw_if (not (is_positive id)) preauth_key_correlation_failed
  ok id
