-- ===== src/Application/ForkChoice/Tree.antt =====
-- The blocks of a fork choice form a tree: each is valid after a parent that was stored before it.
use mathlib.Core.Path.{subst, subst₂}
use mathlib.Core.List.{reverse, reverse-cons}
use mathlib.Core.Option.{some-injective}
use chesscoin.Prelude.{
  ℕ, zero, suc, ◌+◌, ◌≤◌, ◌≡◌, ◌⊎◌, refl, true, false, Bool-cases, some, none, Option-cases, List,
  [], ◌∷◌, ◌++◌, append_assoc, length, arith, ok, ◌∙◌, sym, ap, inl, inr, ok-injective, ◌==◌,
  ==_iff, ==_refl, if◌then◌else◌,
}
use chesscoin.Prelude.Words.{as_u64}
use chesscoin.Domain.Digest.{Digest, digest_eq, zero_digest}
use chesscoin.Domain.Trace.{Block}
use chesscoin.Ports.{HashPort, SamplingPort}
use chesscoin.Application.Config.{ChainConfig}
use chesscoin.Application.Validation.{ParentContext, block_hash, genesis_context}
use chesscoin.Application.Validation.Valid.{IsValidBlock}
use chesscoin.Application.Chain.Valid.{ValidChain, ValidChain-append, context_after}
use chesscoin.Application.ForkChoice.{ForkNode, Nodes, get, remove, walk, find_parent, new_node}

-- The context of a block that builds on the node.
abbrev pub node_context : ForkNode → ParentContext
node_context node = record {
  height = node.next_height;
  hash = node.hash;
  model = node.block.header.model_after;
}

module _ (config : ChainConfig) (hasher : HashPort) (sampler : SamplingPort) where
  -- A node was made from its block, under the block's hash, after a parent among the older nodes.
  pub record IsNode (older : Nodes) (key : Digest) (node : ForkNode) : Type 0 where
    pub parent_context : ParentContext
    pub parent_score : ℕ
    pub key_eq : key ≡ block_hash hasher node.block
    pub node_eq : node ≡ new_node config (block_hash hasher node.block) parent_score node.block
    pub fresh : get older key ≡ none
    pub found :
        find_parent older node.block.header.previous_block ≡ ok (parent_context, parent_score)
    pub valid : IsValidBlock config hasher sampler parent_context node.block

  -- The nodes, the newest first.
  abbrev pub IsTree : Nodes → Type 0
  IsTree [] = Unit
  IsTree ((key, node) ∷ older) = IsNode older key node × IsTree older

get_cons :
    (key other : Digest) (node : ForkNode) (older : Nodes)
    → get ((key, node) ∷ older) other ≡ (if key == other then some node else get older other)
unfolding get
get_cons key other node older = refl

pub get_newest :
    (key : Digest) (node : ForkNode) (older : Nodes) → get ((key, node) ∷ older) key ≡ some node
get_newest key node older = rw (get_cons key key node older, ==_refl key)

pub get_older :
    (key other : Digest) (node found : ForkNode) (older : Nodes)
    → get older key ≡ none
    → get older other ≡ some found
    → get ((key, node) ∷ older) other ≡ some found
get_older key other node found older absent at = elim (Bool-cases (key == other)) [
  | inl same ↦ absurd (cc (absent, at, ap (get older) ((==_iff key other).0 same)))
  | inr apart ↦ rw (get_cons key other node older, apart) at
]

pub get_cons_cases :
    (key other : Digest) (node found : ForkNode) (older : Nodes)
    → get ((key, node) ∷ older) other ≡ some found
    → ((key ≡ other) × (node ≡ found)) ⊎ (get older other ≡ some found)
get_cons_cases key other node found older at = elim (Bool-cases (key == other)) [
  | inl same ↦ inl (
    (==_iff key other).0 same,
    some-injective _ _ (rw (get_cons key other node older, same) at at),
  )
  | inr apart ↦ inr (rw (get_cons key other node older, apart) at at)
]

pub remove_absent : (nodes : Nodes) (key : Digest) → get nodes key ≡ none → remove nodes key ≡ nodes
unfolding get remove
remove_absent [] key h = refl
remove_absent ((k, node) ∷ nodes) key h = ground (arith, remove_absent nodes key)

-- What a lookup among the parents says.
find_parent_cases :
    (nodes : Nodes) (previous : Digest) (context : ParentContext) (score : ℕ)
    → find_parent nodes previous ≡ ok (context, score)
    → ((previous ≡ zero_digest) × (context ≡ genesis_context))
      ⊎ ((previous == zero_digest) ≡ false)
        × ((parent : ForkNode) × (get nodes previous ≡ some parent)
            × (context ≡ node_context parent))
unfolding find_parent
find_parent_cases nodes previous context score h = elim (Bool-cases (previous == zero_digest)) [
  | inl root ↦
      let same = ok-injective (rw (root, find_parent) at h) in
      inl ((==_iff previous zero_digest).0 root, sym (ap (λ p. p.0) same))
  | inr child ↦ elim (Option-cases (get nodes previous)) [
    | inl missing ↦ absurd (cc (rw (child, missing, find_parent) at h))
    | inr (parent, at) ↦
        let same = ok-injective (rw (child, at, find_parent) at h) in
        inr (child, (parent, at, sym (ap (λ p. p.0) same)))
  ]
]

module _ (nodes : Nodes) where
  -- One step of the walk back from a node that is stored.
  pub walk_node :
      (fuel : ℕ) (key : Digest) (node : ForkNode) (chain : List Block)
      → get nodes key ≡ some node
      → walk nodes (suc fuel) (some key) chain
        ≡ walk nodes fuel
            (if node.parent == zero_digest then none else some node.parent)
            (chain ++ node.block ∷ [])
  unfolding walk
  walk_node fuel key node chain at = rw (at, walk)

  pub walk_end : (fuel : ℕ) (chain : List Block) → walk nodes (suc fuel) none chain ≡ some chain
  unfolding walk
  walk_end fuel chain = refl

  walk_root :
      (fuel : ℕ) (key : Digest) (node : ForkNode) (chain : List Block)
      → get nodes key ≡ some node
      → (node.parent == zero_digest) ≡ true
      → 1 ≤ fuel
      → walk nodes (suc fuel) (some key) chain ≡ some (chain ++ node.block ∷ [])
  walk_root zero key node chain at root enough = absurd (omega arith)
  walk_root (suc fuel) key node chain at root enough =
      rw (walk_node (suc fuel) key node chain at, root) (walk_end fuel _)

  walk_child :
      (fuel below : ℕ) (key : Digest) (node : ForkNode) (chain blocks : List Block)
      → get nodes key ≡ some node
      → (node.parent == zero_digest) ≡ false
      → ((f : ℕ) (c : List Block)
          → below ≤ f
          → walk nodes (suc f) (some node.parent) c ≡ some (c ++ blocks))
      → suc below ≤ fuel
      → walk nodes (suc fuel) (some key) chain ≡ some (chain ++ node.block ∷ blocks)
  walk_child zero below key node chain blocks at child parent enough = absurd (omega arith)
  walk_child (suc fuel) below key node chain blocks at child parent enough = rw (
    walk_node (suc fuel) key node chain at,
    child,
    parent fuel (chain ++ node.block ∷ []) (omega (arith, enough)),
    append_assoc,
  )

  -- The lookups among the older nodes are lookups among all.
  abbrev pub Extends : Nodes → Type 0
  Extends older =
      (key : Digest) (node : ForkNode) → get older key ≡ some node → get nodes key ≡ some node

-- What holds the newest node and the older ones holds the older ones.
pub Extends-older :
    (nodes older : Nodes) (key : Digest) (node : ForkNode)
    → get older key ≡ none
    → Extends nodes ((key, node) ∷ older)
    → Extends nodes older
Extends-older nodes older key node fresh extends j q found =
    extends j q (get_older key j node q older fresh found)

module _ (config : ChainConfig) (hasher : HashPort) (sampler : SamplingPort) where
  -- The blocks from a node back to the genesis, as the walk collects them, among whatever nodes there
  -- are besides.
  pub record Branch (older : Nodes) (key : Digest) (node : ForkNode) : Type 0 where
    pub blocks : List Block
    pub hash_eq : node.hash ≡ key
    pub walked :
        (nodes : Nodes) (fuel : ℕ) (chain : List Block)
        → Extends nodes older
        → length older ≤ fuel
        → walk nodes (suc fuel) (some key) chain ≡ some (chain ++ blocks)
    pub valid :
        ValidChain config hasher sampler genesis_context (reverse blocks) (node_context node)

  newest_context :
      (older : Nodes) (key : Digest) (node : ForkNode)
      (n : IsNode config hasher sampler older key node)
      → context_after hasher n.parent_context node.block ≡ node_context node
  unfolding new_node
  newest_context older key node n =
      let heights : as_u64 (n.parent_context.height + 1) ≡ node.next_height =
        ap (λ h. as_u64 (h + 1)) (sym n.valid.height_eq)
        ∙ sym (ap (λ (m : ForkNode). m.next_height) n.node_eq) in
      let hashes : block_hash hasher node.block ≡ node.hash =
        sym (ap (λ (m : ForkNode). m.hash) n.node_eq) in
      λ i. record { height = heights i; hash = hashes i; model = node.block.header.model_after }

  newest_valid :
      (older : Nodes) (key : Digest) (node : ForkNode)
      (n : IsNode config hasher sampler older key node) (blocks : List Block)
      → ValidChain config hasher sampler genesis_context (reverse blocks) n.parent_context
      → ValidChain config hasher sampler genesis_context
          (reverse (node.block ∷ blocks))
          (node_context node)
  newest_valid older key node n blocks h =
      subst₂ (λ bs tip. ValidChain config hasher sampler genesis_context bs tip)
        (sym (reverse-cons node.block blocks)) (newest_context older key node n)
        (ValidChain-append config hasher sampler genesis_context n.parent_context (reverse blocks)
          node.block h n.valid)

  node_hash :
      (older : Nodes) (key : Digest) (node : ForkNode)
      → IsNode config hasher sampler older key node
      → node.hash ≡ key
  unfolding new_node
  node_hash older key node n = ap (λ (m : ForkNode). m.hash) n.node_eq ∙ sym n.key_eq

  node_parent :
      (older : Nodes) (key : Digest) (node : ForkNode)
      → IsNode config hasher sampler older key node
      → node.parent ≡ node.block.header.previous_block
  unfolding new_node
  node_parent older key node n = ap (λ (m : ForkNode). m.parent) n.node_eq

  -- The newest of the nodes starts a branch, if its parent does.
  newest-Branch :
      (older : Nodes) (key : Digest) (node : ForkNode)
      → IsNode config hasher sampler older key node
      → ((parent : ForkNode)
          → get older node.block.header.previous_block ≡ some parent
          → Branch older node.block.header.previous_block parent)
      → Branch ((key, node) ∷ older) key node
  newest-Branch older key node n parents =
      elim (find_parent_cases older node.block.header.previous_block n.parent_context n.parent_score
        n.found) [
          | inl (root, context) ↦ record {
            blocks = node.block ∷ [];
            hash_eq = node_hash older key node n;
            walked = λ nodes fuel chain extends enough.
                walk_root nodes fuel key node chain (extends key node (get_newest key node older))
                  (ap (λ d. d == zero_digest) (node_parent older key node n)
                    ∙ (==_iff node.block.header.previous_block zero_digest).1 root)
                  (omega (arith, enough));
            valid = newest_valid older key node n [] (context);
          }
          | inr (child, (parent, stored, context)) ↦
              let b = parents parent stored in
              record {
                blocks = node.block ∷ b.blocks;
                hash_eq = node_hash older key node n;
                walked = λ nodes fuel chain extends enough.
                    walk_child nodes fuel (length older) key node chain b.blocks
                      (extends key node (get_newest key node older))
                      (ap (λ d. d == zero_digest) (node_parent older key node n) ∙ child)
                      (rw (node_parent older key node n) (λ f c.
                        b.walked nodes f c (Extends-older nodes older key node n.fresh extends)))
                      enough;
                valid = newest_valid older key node n b.blocks (
                    subst (ValidChain config hasher sampler genesis_context (reverse b.blocks))
                      (sym context) b.valid);
              }
        ]

  -- Every stored node starts a branch back to the genesis.
  pub branch :
      (older : Nodes) (key : Digest) (node : ForkNode)
      → IsTree config hasher sampler older
      → get older key ≡ some node
      → Branch older key node
  branch [] key node tree at = unfold get in absurd (ground arith)
  branch ((k, m) ∷ older) key node tree at = elim (get_cons_cases k key m node older at) [
    | inl (same_key, same_node) ↦ subst₂ (Branch ((k, m) ∷ older)) same_key same_node (
        newest-Branch older k m tree.0
          (λ parent found. branch older m.block.header.previous_block parent tree.1 found))
    | inr found ↦
        let b = branch older key node tree.1 found in
        record {
          blocks = b.blocks;
          hash_eq = b.hash_eq;
          walked = λ nodes fuel chain extends enough.
              b.walked nodes fuel chain (Extends-older nodes older k m tree.0.fresh extends)
                (omega (arith, enough));
          valid = b.valid;
        }
  ]
