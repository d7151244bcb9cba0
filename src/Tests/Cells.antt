-- ===== src/Tests/Cells.antt =====
-- A cell with one node, and the properties of the policy at it.
use fabushi_backend.Prelude.{
  ℕ, ◌≤◌, ◌≡◌, ◌↔◌, refl, ap, ◌∙◌, inl, inr, true, List, [], ◌∷◌, some, ok, every, length, arith,
  Bool-cases, text_beq, text_beq_iff, text_Eq, ◌==◌, if◌then◌else◌,
}
use fabushi_backend.Text.{Text, codes}
use fabushi_backend.Text
use fabushi_backend.Text.Split
use fabushi_backend.Artifact.Rows.{text_lt}
use fabushi_backend.Fdn.Snapshot
use fabushi_backend.Fdn.Snapshot.{
  Net, Row, Snapshot, Binding, octets, validate_cell_snapshot, valid_binding, valid_tailnet_node,
  build_headscale_policy, max_bindings,
}
use fabushi_backend.Fdn.Tailnet.{tailnet_ipv4}
use fabushi_backend.Fdn.Live.{Each, IsLive, InTailnet}
use fabushi_backend.Fdn.Policy.{accepted_snapshot, distinct_nodes, is_of}

abbrev node : Text
node = codes "100.64.0.7"

abbrev kind_of : Text → ℕ
kind_of s = if s == node then 4 else 0

node_octets :
    (s : Text)
    → kind_of s ≡ 4
    → (a b c d : ℕ) × (octets s ≡ a ∷ b ∷ c ∷ d ∷ [])
      × (a ≤ 255)
      × (b ≤ 255)
      × (c ≤ 255)
      × (d ≤ 255)
unfolding octets Split.split_on Snapshot.number_of
node_octets s four = elim (Bool-cases (s == node)) [
  | inl same ↦ (
    100,
    64,
    0,
    7,
    ap octets ((text_beq_iff s node).0 same) ∙ refl,
    omega arith,
    omega arith,
    omega arith,
    omega arith,
  )
  | inr other ↦ absurd (ground arith)
]

-- One address and nothing else.
abbrev toy_net : Net
toy_net = record { is_ip = kind_of; before = text_lt; four_octets = node_octets }

abbrev cell : Text
cell = codes "cell-0001"

abbrev snapshot : Snapshot
snapshot = record {
  keys = codes "cellId" ∷ codes "bindings" ∷ [];
  cell_id = some cell;
  generated_at_is_safe = true;
  bindings = some (
      some (record {
        keys = codes "userId" ∷ codes "nodeId" ∷ [];
        user_id = some (codes "alice");
        device_id = some (codes "laptop");
        cell_id = some cell;
        node_id = some node;
        generation = some 1;
        expires_at = some 20;
      })
      ∷ []);
}

node_is_ipv4 : toy_net.is_ip node ≡ 4
unfolding text_beq
node_is_ipv4 = refl

snapshot_accepted :
    (bs : List Binding) × (validate_cell_snapshot toy_net (some snapshot) cell 10 ≡ ok bs)
unfolding text_beq Snapshot.validate_cell_snapshot Text.has octets
snapshot_accepted = (_, refl)

tailnet_ipv4_example : (valid_tailnet_node toy_net node ≡ true) ↔ (
    (length node ≤ 160)
    × (b : ℕ) × (c : ℕ) × (d : ℕ) × (octets node ≡ 100 ∷ b ∷ c ∷ d ∷ [])
    × (64 ≤ b)
    × (b ≤ 127))
tailnet_ipv4_example = tailnet_ipv4 toy_net node node_is_ipv4

accepted_snapshot_example :
    (length snapshot_accepted.0 ≤ 256)
    × Each (IsLive toy_net cell 10) snapshot_accepted.0
    × (distinct_nodes snapshot_accepted.0 ≡ true)
    × (user : Text) × (every (is_of user) snapshot_accepted.0 ≡ true)
    × Each (λ g. Each (InTailnet toy_net) g.dst) (build_headscale_policy snapshot_accepted.0)
accepted_snapshot_example =
    accepted_snapshot toy_net (some snapshot) cell 10 snapshot_accepted.0 snapshot_accepted.1
