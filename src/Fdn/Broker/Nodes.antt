-- ===== src/Fdn/Broker/Nodes.antt =====
-- `resolveNodeForPreAuthKey`, `proofSha256`, `bindingExpirySeconds` and the checks of Core's answers.
use Prim.Native.Nat.{◌/◌, min}
use fabushi_backend.Prelude.{
  ℕ, ◌+◌, ◌-◌, ◌*◌, Bool, false, ◌&&◌, ◌||◌, List, [], ◌∷◌, ◌++◌, Option, none, some, filter, ltb,
  nat_beq, nat_Eq, text_Eq, ◌==◌, Result, ok, throw_if, or_throw, ◌>>=◌, ◌>>◌, if◌then◌else◌,
}
use fabushi_backend.Text.{Text, codes, is_empty}
use fabushi_backend.Text.Decimal.{decimal}
use fabushi_backend.Fdn.Broker.Rows.{
  Error, node_correlation_failed, Host, Identity, Bound, NodeRow, BindResponse, CellBinding,
  CellSnapshot,
}
use fabushi_backend.Fdn.Broker.Names.{bounded_text, sha256_hex}
use fabushi_backend.Fdn.Broker.Keys.{is_text, the_only}
use fabushi_backend.Fdn.Broker.Addresses.{select_node_address}

pub record Node : Type 0 where
  pub node_id : Text
  pub machine_key : Text
  pub node_key : Text
  pub expiry : Option ℕ

abbrev pub is_number : Option ℕ → ℕ → Bool
is_number none n = false
is_number (some m) n = nat_beq m n

unfoldable pub is_node_of : ℕ → Text → Option NodeRow → Bool
unfolding bounded_text
is_node_of key_id cell none = false
is_node_of key_id cell (some row) =
    is_number row.pre_auth_key_id key_id && (bounded_text row.owner 128 == cell)

unfoldable pub resolve_node : (Text → ℕ) → List (Option NodeRow) → ℕ → Text → Result Error Node
unfolding is_node_of bounded_text select_node_address
resolve_node is_ip rows key_id cell = do
  row ← or_throw (the_only (filter (is_node_of key_id cell) rows)) node_correlation_failed
  throw_if (is_empty (bounded_text row.machine_key 256) || is_empty (bounded_text row.node_key 256))
      node_correlation_failed
  address ← select_node_address is_ip row.ip_addresses
  ok (record {
    node_id = address;
    machine_key = bounded_text row.machine_key 256;
    node_key = bounded_text row.node_key 256;
    expiry = row.expiry;
  })

abbrev domain_proof : Text
domain_proof = codes "fabushi-fdn-headscale-node-proof-v1" ++ 0 ∷ []

unfoldable pub proof_sha256 : Host → Identity → ℕ → Node → Text
unfolding sha256_hex
proof_sha256 h id key_id node = sha256_hex h (
    domain_proof
    ∷ id.cell_id
    ∷ id.user_id
    ∷ id.device_id
    ∷ decimal id.generation
    ∷ decimal key_id
    ∷ node.node_id
    ∷ node.machine_key
    ∷ node.node_key
    ∷ [])

unfoldable pub binding_expiry_seconds : Option ℕ → ℕ → ℕ
binding_expiry_seconds none now = now + 24 * 60 * 60 - 60
binding_expiry_seconds (some expiry) now =
    if ltb now (expiry / 1000)
    then min (expiry / 1000) (now + 24 * 60 * 60 - 60)
    else now + 24 * 60 * 60 - 60

-- `validateBindResponse`; an answer that is null is none
unfoldable pub bind_accepted : Option BindResponse → Identity → Bound → Bool
bind_accepted none id bound = false
bind_accepted (some r) id bound =
    r.ok
    && is_text r.user_id id.user_id
    && is_text r.device_id id.device_id
    && is_number r.generation id.generation
    && is_number r.expires_at bound.binding_expires_at

unfoldable pub is_binding_of : Identity → Bound → CellBinding → Bool
is_binding_of id bound b =
    is_text b.user_id id.user_id
    && is_text b.device_id id.device_id
    && is_text b.cell_id id.cell_id
    && is_number b.generation id.generation
    && is_text b.node_id bound.node_id

-- `Array.prototype.some`
abbrev pub some_binding : (CellBinding → Bool) → List CellBinding → Bool
some_binding p [] = false
some_binding p (b ∷ bs) = p b || some_binding p bs

-- `validateSnapshot`
unfoldable pub snapshot_has : Option CellSnapshot → Identity → Bound → Bool
unfolding is_binding_of
snapshot_has none id bound = false
snapshot_has (some s) id bound = is_text s.cell_id id.cell_id && listed s.bindings
  where
    listed : Option (List CellBinding) → Bool
    listed none = false
    listed (some bindings) = some_binding (is_binding_of id bound) bindings
