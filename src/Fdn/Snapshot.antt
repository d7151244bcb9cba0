-- ===== src/Fdn/Snapshot.antt =====
-- fdn-network-coordinator/project-core-policy.mjs: validateCellSnapshot and buildHeadscalePolicy.
use Prim.Native.Nat.{◌%◌}
use fabushi_backend.Prelude.{
  ℕ, ◌+◌, ◌-◌, ◌*◌, ◌^◌, ◌≤◌, ◌≡◌, Bool, true, false, ◌&&◌, ◌||◌, not, List, [], ◌∷◌, Option, map,
  length, every, leb, ltb, nat_beq, text_Eq, ◌==◌, Result, ok, throw_if, or_throw, ◌>>=◌, ◌>>◌,
  if◌then◌else◌,
}
use fabushi_backend.Text.{Text, codes, has}
use fabushi_backend.Text.Split.{split_on}
use fabushi_backend.Text.Pattern.{is_digit, is_lower_letter, is_upper_letter}

-- What the constructor `Error` is given.
pub data Error : Type 0 where
  invalid_cell_id invalid_snapshot invalid_binding duplicate_node mixed_accounts : Error

abbrev pub max_bindings : ℕ
max_bindings = 256

abbrev is_id_char : ℕ → Bool
is_id_char c =
    is_digit c
    || is_lower_letter c
    || is_upper_letter c
    || nat_beq c b'_'
    || nat_beq c b'.'
    || nat_beq c b':'
    || nat_beq c b'-'

unfoldable pub valid_identifier : Text → ℕ → ℕ → Bool
valid_identifier s lo hi = leb lo (length s) && leb (length s) hi && every is_id_char s

-- `Number` of a text of digits
unfoldable pub number_of : ℕ → Text → ℕ
number_of acc [] = acc
number_of acc (c ∷ s) = number_of (acc * 10 + (c - 48)) s

unfoldable pub octets : Text → List ℕ
unfolding split_on number_of
octets s = map (number_of 0) (split_on b'.' s)

-- `isIP` of `node:net`, 4, 6 or 0, and `a.localeCompare(b) < 0`. An IPv4 address is four numbers of a
-- byte each.
pub record Net : Type 0 where
  pub is_ip : Text → ℕ
  pub before : Text → Text → Bool
  pub four_octets :
      (s : Text)
      → is_ip s ≡ 4
      → (a b c d : ℕ) × (octets s ≡ a ∷ b ∷ c ∷ d ∷ [])
        × (a ≤ 255)
        × (b ≤ 255)
        × (c ≤ 255)
        × (d ≤ 255)

-- `(((a << 24) >>> 0) + (b << 16) + (c << 8) + d) >>> 0`, of bytes
unfoldable pub address_number : List ℕ → ℕ
address_number (a ∷ b ∷ c ∷ d ∷ _) = (a * 2 ^ 24 % 2 ^ 32 + b * 2 ^ 16 + c * 2 ^ 8 + d) % 2 ^ 32
address_number _ = 0

abbrev first_address : ℕ
first_address = 100 * 2 ^ 24 + 64 * 2 ^ 16

abbrev last_address : ℕ
last_address = 100 * 2 ^ 24 + 127 * 2 ^ 16 + 255 * 2 ^ 8 + 255

unfoldable pub in_range : List ℕ → Bool
unfolding address_number
in_range parts = leb first_address (address_number parts) && leb (address_number parts) last_address

-- `toLowerCase`, of the units that can become one of the prefix
abbrev pub lower_unit : ℕ → ℕ
lower_unit c = if is_upper_letter c then c + 32 else c

unfoldable pub starts_with : Text → Text → Bool
starts_with [] s = true
starts_with (c ∷ prefix) [] = false
starts_with (c ∷ prefix) (d ∷ s) = nat_beq c d && starts_with prefix s

abbrev pub tailnet_prefix : Text
tailnet_prefix = codes "fd7a:115c:a1e0:"

unfoldable pub valid_tailnet_node : Net → Text → Bool
unfolding in_range
valid_tailnet_node net s =
    leb (length s) 160
    && (if nat_beq (net.is_ip s) 4
        then in_range (octets s)
        else nat_beq (net.is_ip s) 6 && starts_with tailnet_prefix (map lower_unit s))

-- A row of the snapshot as it comes: its keys, and the fields, none where a text or a safe integer
-- that is not negative is expected and something else stands.
pub record Row : Type 0 where
  pub keys : List Text
  pub user_id : Option Text
  pub device_id : Option Text
  pub cell_id : Option Text
  pub node_id : Option Text
  pub generation : Option ℕ
  pub expires_at : Option ℕ

-- A row that has been checked.
pub record Binding : Type 0 where
  pub user_id : Text
  pub device_id : Text
  pub cell_id : Text
  pub node_id : Text
  pub generation : ℕ
  pub expires_at : ℕ

-- A row or a snapshot that is no object is none.
pub record Snapshot : Type 0 where
  pub keys : List Text
  pub cell_id : Option Text
  -- `Number.isSafeInteger(snapshot.generatedAt)`
  pub generated_at_is_safe : Bool
  pub bindings : Option (List (Option Row))

pub top_level_fields : List Text
top_level_fields = codes "cellId" ∷ codes "generatedAt" ∷ codes "bindings" ∷ []

pub binding_fields : List Text
binding_fields =
    codes "userId"
    ∷ codes "deviceId"
    ∷ codes "cellId"
    ∷ codes "nodeId"
    ∷ codes "generation"
    ∷ codes "expiresAt"
    ∷ []

-- The tests on one row.
unfoldable pub valid_binding : Net → Text → ℕ → Binding → Bool
unfolding valid_identifier valid_tailnet_node
valid_binding net cell now b =
    valid_identifier b.user_id 1 160
    && valid_identifier b.device_id 1 128
    && (b.cell_id == cell)
    && valid_tailnet_node net b.node_id
    && ltb 0 b.generation
    && ltb now b.expires_at

-- `exactFields(row, BINDING_FIELDS)` and the tests of the types
unfoldable pub read_binding : Option Row → Result Error Binding
unfolding binding_fields
read_binding row = do
  r ← or_throw row invalid_binding
  throw_if (not (every (has binding_fields) r.keys)) invalid_binding
  user_id ← or_throw r.user_id invalid_binding
  device_id ← or_throw r.device_id invalid_binding
  cell_id ← or_throw r.cell_id invalid_binding
  node_id ← or_throw r.node_id invalid_binding
  generation ← or_throw r.generation invalid_binding
  expires_at ← or_throw r.expires_at invalid_binding
  ok (record {
    user_id = user_id;
    device_id = device_id;
    cell_id = cell_id;
    node_id = node_id;
    generation = generation;
    expires_at = expires_at;
  })

-- `Set.prototype.add`
abbrev pub add_text : List Text → Text → List Text
add_text set s = if has set s then set else s ∷ set

-- The loop over the rows, with the sets of nodes and of users so far.
unfoldable pub check_rows :
    Net
    → Text
    → ℕ
    → List (Option Row)
    → List Text
    → List Text
    → Result Error (List Binding × List Text)
unfolding read_binding valid_binding
check_rows net cell now [] nodes users = ok ([], users)
check_rows net cell now (row ∷ rows) nodes users = do
  b ← read_binding row
  throw_if (not (valid_binding net cell now b)) invalid_binding
  throw_if (has nodes b.node_id) duplicate_node
  (rest, all_users) ←
      check_rows net cell now rows (add_text nodes b.node_id) (add_text users b.user_id)
  ok (b ∷ rest, all_users)

-- the stable sort by the `localeCompare` of the nodes
unfoldable pub insert_by_node : Net → Binding → List Binding → List Binding
insert_by_node net b [] = b ∷ []
insert_by_node net b (c ∷ rest) =
    let later = insert_by_node net b rest in
    if net.before c.node_id b.node_id then c ∷ later else b ∷ c ∷ rest

unfoldable pub sort_by_node : Net → List Binding → List Binding
unfolding insert_by_node
sort_by_node net [] = []
sort_by_node net (b ∷ rest) = insert_by_node net b (sort_by_node net rest)

unfoldable pub validate_cell_snapshot :
    Net → Option Snapshot → Text → ℕ → Result Error (List Binding)
unfolding check_rows sort_by_node valid_identifier top_level_fields
validate_cell_snapshot net raw cell now = do
  throw_if (not (valid_identifier cell 8 128)) invalid_cell_id
  snapshot ← or_throw raw invalid_snapshot
  throw_if (not (every (has top_level_fields) snapshot.keys)) invalid_snapshot
  named ← or_throw snapshot.cell_id invalid_snapshot
  throw_if (not (named == cell)) invalid_snapshot
  throw_if (not snapshot.generated_at_is_safe) invalid_snapshot
  rows ← or_throw snapshot.bindings invalid_snapshot
  throw_if (ltb max_bindings (length rows)) invalid_snapshot
  (bindings, users) ← check_rows net cell now rows [] []
  throw_if (ltb 1 (length users)) mixed_accounts
  ok (sort_by_node net bindings)

pub record Grant : Type 0 where
  pub src : List Text
  pub dst : List Text
  pub ip : List Text

abbrev pub node_of : Binding → Text
node_of b = b.node_id

unfoldable pub build_headscale_policy : List Binding → List Grant
build_headscale_policy [] = []
build_headscale_policy (b ∷ rest) =
    record { src = codes "*" ∷ []; dst = map node_of (b ∷ rest); ip = codes "tcp:8792" ∷ [] } ∷ []
