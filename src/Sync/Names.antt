-- ===== src/Sync/Names.antt =====
-- `normalizeMiniAppId`, `normalizeAgentId`, `normalizeAgentPath` and the keys of the cloud storage.
use fabushi_backend.Prelude.{
  ℕ, ◌+◌, Bool, true, false, ◌&&◌, ◌||◌, not, List, [], ◌∷◌, ◌++◌, Option, map, filter, length,
  every, leb, ltb, nat_beq, text_Eq, ◌==◌, Result, ok, throw_if, ◌>>◌, if◌then◌else◌,
}
use fabushi_backend.Text.{Text, Locale, codes, trim, text_or, is_empty}
use fabushi_backend.Text.Pattern.{is_digit, is_lower_letter, is_upper_letter}
use fabushi_backend.Sync.Log.{Error, invalid_mini_app_id, invalid_agent_id, invalid_agent_path}

abbrev is_mini_app_char : ℕ → Bool
is_mini_app_char c = is_lower_letter c || is_digit c || nat_beq c b'-'

-- /^[a-z0-9][a-z0-9-]{1,63}$/
unfoldable pub mini_app_pattern : Text → Bool
mini_app_pattern [] = false
mini_app_pattern (c ∷ s) =
    (is_lower_letter c || is_digit c)
    && leb 1 (length s)
    && leb (length s) 63
    && every is_mini_app_char s

unfoldable pub mini_app_id : Locale → Option Text → Result Error Text
unfolding mini_app_pattern
mini_app_id l value = do
  let id = l.lower (trim (text_or value []))
  throw_if (not (mini_app_pattern id)) invalid_mini_app_id
  ok id

abbrev is_id_start : ℕ → Bool
is_id_start c = is_digit c || is_lower_letter c || is_upper_letter c

abbrev is_id_char : ℕ → Bool
is_id_char c = is_id_start c || nat_beq c b'.' || nat_beq c b'_' || nat_beq c b':' || nat_beq c b'-'

-- AGENT_ID_PATTERN, /^[A-Za-z0-9][A-Za-z0-9._:-]{0,159}$/
unfoldable pub agent_id_pattern : Text → Bool
agent_id_pattern [] = false
agent_id_pattern (c ∷ s) = is_id_start c && leb (length s) 159 && every is_id_char s

unfoldable pub agent_id : Option Text → Result Error Text
unfolding agent_id_pattern
agent_id value = do
  let id = trim (text_or value [])
  throw_if (not (agent_id_pattern id)) invalid_agent_id
  ok id

abbrev is_cloud_char : ℕ → Bool
is_cloud_char c = is_id_start c || nat_beq c b'_' || nat_beq c b'-'

-- CLOUD_KEY_PATTERN, /^[A-Za-z0-9_-]{1,128}$/
unfoldable pub cloud_key_pattern : Text → Bool
cloud_key_pattern s = leb 1 (length s) && leb (length s) 128 && every is_cloud_char s

-- `Buffer.byteLength(value, 'utf8')`: a surrogate with no partner is encoded as U+FFFD
unfoldable pub byte_length : Text → ℕ
byte_length [] = 0
byte_length (c ∷ []) = if ltb c 0x80 then 1 else if ltb c 0x800 then 2 else 3
byte_length (c ∷ d ∷ s) =
    let paired = 4 + byte_length s in
    let rest = byte_length (d ∷ s) in
    if ltb c 0x80
    then 1 + rest
    else if ltb c 0x800
    then 2 + rest
    else if leb 0xd800 c && leb c 0xdbff && leb 0xdc00 d && leb d 0xdfff
    then paired
    else 3 + rest

abbrev is_high : ℕ → Bool
is_high c = leb 0xd800 c && leb c 0xdbff

abbrev is_low : ℕ → Bool
is_low c = leb 0xdc00 c && leb c 0xdfff

-- A unit with no partner, as it comes back from UTF-8.
abbrev pub lone_unit : ℕ → ℕ
lone_unit c = if is_high c || is_low c then 0xfffd else c

-- What a text column of SQLite gives back of a text: it is stored as UTF-8.
unfoldable pub stored : Text → Text
stored [] = []
stored (c ∷ []) = lone_unit c ∷ []
stored (c ∷ d ∷ s) =
    let behind = stored s in
    let rest = stored (d ∷ s) in
    if is_high c && is_low d then c ∷ d ∷ behind else lone_unit c ∷ rest

-- `replaceAll('\\', '/')`
abbrev slash_unit : ℕ → ℕ
slash_unit c = if nat_beq c 0x5c then b'/' else c

-- `startsWith('/')`, and /^[A-Za-z]:\//
unfoldable pub is_rooted : Text → Bool
is_rooted [] = false
is_rooted (c ∷ d ∷ e ∷ s) =
    nat_beq c b'/' || ((is_lower_letter c || is_upper_letter c) && nat_beq d b':' && nat_beq e b'/')
is_rooted (c ∷ s) = nat_beq c b'/'

abbrev is_nonzero : ℕ → Bool
is_nonzero c = not (nat_beq c 0)

unfoldable pub onto_first : ℕ → List Text → List Text
onto_first c [] = (c ∷ []) ∷ []
onto_first c (segment ∷ rest) = (c ∷ segment) ∷ rest

-- `split('/')`
unfoldable pub split_path : Text → List Text
unfolding onto_first
split_path [] = [] ∷ []
split_path (c ∷ s) =
    let rest = split_path s in if nat_beq c b'/' then [] ∷ rest else onto_first c rest

-- `join('/')`
unfoldable pub join_path : List Text → Text
join_path [] = []
join_path (segment ∷ []) = segment
join_path (segment ∷ next ∷ rest) = segment ++ b'/' ∷ join_path (next ∷ rest)

abbrev is_named : Text → Bool
is_named segment = not (is_empty segment) && not (segment == codes ".")

abbrev pub is_segment : Text → Bool
is_segment segment = not (segment == codes "..") && leb (length segment) 255

abbrev no_segments : List Text → Bool
no_segments [] = true
no_segments (segment ∷ rest) = false

unfoldable pub agent_path : Option Text → Result Error Text
unfolding is_rooted split_path join_path
agent_path value = do
  let path = trim (map slash_unit (text_or value []))
  throw_if (is_empty path || is_rooted path || not (every is_nonzero path)) invalid_agent_path
  let segments = filter is_named (split_path path)
  throw_if (no_segments segments || not (every is_segment segments)) invalid_agent_path
  ok (join_path segments)
