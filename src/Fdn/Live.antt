-- ===== src/Fdn/Live.antt =====
-- The addresses of the tailnet and the bindings that give access, apart from the code's tests.
use fabushi_backend.Prelude.{
  ℕ, ◌≤◌, ◌<◌, ◌≡◌, ◌⊎◌, ◌++◌, nat_beq, nat_beq_iff, refl, inl, inr, Bool, true, List, [], ◌∷◌, map,
  length, every, arith, Bool-cases, text_Eq, text_beq_iff,
}
use fabushi_backend.Text.{Text, codes}
use fabushi_backend.Fdn.Tailnet.{tailnet_ipv4}
use fabushi_backend.Fdn.Snapshot.{
  Net, Binding, valid_binding, valid_tailnet_node, octets, lower_unit, tailnet_prefix, starts_with,
}

-- Of every element.
abbrev pub Each : {A : Type 0} → (A → Type 0) → List A → Type 0
Each P [] = Unit {0}
Each P (x ∷ xs) = P x × Each P xs

-- An address of the tailnet: four bytes of 100.64.0.0/10, or a text that begins as its IPv6 prefix.
abbrev pub InTailnet : Net → Text → Type 0
InTailnet net s =
    (length s ≤ 160)
    × (((net.is_ip s ≡ 4)
          × (b : ℕ) × (c : ℕ) × (d : ℕ) × (octets s ≡ 100 ∷ b ∷ c ∷ d ∷ [])
          × (64 ≤ b)
          × (b ≤ 127))
        ⊎ ((net.is_ip s ≡ 6)
            × (rest : Text) × (map lower_unit s ≡ codes "fd7a:115c:a1e0:" ++ rest)))

-- A binding that gives access: of the cell, not expired, of a generation, and of a node in the tailnet.
pub record IsLive (net : Net) (cell : Text) (now : ℕ) (b : Binding) : Type 0 where
  pub cell_of : b.cell_id ≡ cell
  pub live : now < b.expires_at
  pub generation : 0 < b.generation
  pub reaches : InTailnet net b.node_id

prefix_first :
    (prefix s : Text) → starts_with prefix s ≡ true → (rest : Text) × (s ≡ prefix ++ rest)
unfolding starts_with
prefix_first [] s h = (s, refl)
prefix_first (c ∷ prefix) [] h = absurd (ground arith)
prefix_first (c ∷ prefix) (d ∷ s) h =
    let (rest, is) = prefix_first prefix s (ground arith) in
    let same : c ≡ d = ground arith in (rest, rw (same, is) refl)

pub valid_tailnet_node-InTailnet :
    (net : Net) (s : Text) → valid_tailnet_node net s ≡ true → InTailnet net s
unfolding valid_tailnet_node
valid_tailnet_node-InTailnet net s valid = elim (Bool-cases (nat_beq (net.is_ip s) 4)) [
  | inl four ↦
      let kind : net.is_ip s ≡ 4 = (nat_beq_iff (net.is_ip s) 4).0 four in
      let (short, b, c, d, is, low, high) = (tailnet_ipv4 net s kind).0 valid in
      (short, inl (kind, b, c, d, is, low, high))
  | inr other ↦
      let kind : net.is_ip s ≡ 6 = ground arith in
      let (rest, is) = prefix_first tailnet_prefix (map lower_unit s) (ground arith) in
      (ground arith, inr (kind, rest, is))
]

pub valid_binding-IsLive :
    (net : Net) (cell : Text) (now : ℕ) (b : Binding)
    → valid_binding net cell now b ≡ true
    → IsLive net cell now b
unfolding valid_binding
valid_binding-IsLive net cell now b valid = record {
  cell_of = (text_beq_iff b.cell_id cell).0 (ground arith);
  live = ground arith;
  generation = ground arith;
  reaches = valid_tailnet_node-InTailnet net b.node_id (ground arith);
}

pub every-Each :
    {A : Type 0} (p : A → Bool) (P : A → Type 0)
    → ((x : A) → p x ≡ true → P x)
    → (xs : List A) → every p xs ≡ true
    → Each P xs
every-Each p P each [] all = tt
every-Each p P each (x ∷ xs) all = (each x (ground arith), every-Each p P each xs (ground arith))
