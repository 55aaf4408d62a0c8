-- ===== src/Node/Loop/Commands.antt =====
-- What a command of `node_loop` does to a node in order.
use chesscoin.Prelude.{
  ℕ, ◌^◌, none, if◌then◌else◌, ◌==◌, nat_eq, ◌∙◌, ◌≤◌, ◌≡◌, refl, Bool, true, false, Bool-cases,
  some, inl, inr, Bytes, Option, ap,
}
use chesscoin.Domain.Trace.{Block}
use chesscoin.Ports.{SamplingPort, InRange}
use chesscoin.Application.ForkChoice.{mine_next_block}
use chesscoin.Adapters.{toy_hash}
use chesscoin.Node.Address.{SocketAddr}
use chesscoin.Node.Config.{MinerConfig, validate_miner_config}
use chesscoin.Node.State.{NodeState}
use chesscoin.Node.Peers
use chesscoin.Node.Chains.{mined}
use chesscoin.Node.Chains.Mine.{mine_once_result}
use chesscoin.Node.Chains.Whole.{NonZero}
use chesscoin.Node.Dispatch.{
  announce_to_peer_and_count, announce_to_peers, broadcast_block, tell_mined, mine_and_tell,
}
use chesscoin.Node.Steps.{IsNode, add_peer-IsNode}
use chesscoin.Node.Steps.Ask.{SafeReplies, sync_once-IsNode}
use chesscoin.Node.Steps.Reach.{record_hello_announcements-IsNode, mine_and_tell-IsNode}
use chesscoin.Node.Loop.{
  NodeCommand, mine_once, add_peer, start_mining, stop_mining, sync_once, stop, LoopState,
  Surroundings, LoopResult, running, after_mining, and_then, after_add_peer, checked_miner,
  sync_now, handle_command,
}

-- Whether the node is stopped after a command, and the miner that it has then.
abbrev pub stopped_by : Bool → NodeCommand → Bool
stopped_by stopped stop = true
stopped_by stopped command = stopped

abbrev pub miner_by : Option MinerConfig → NodeCommand → Option MinerConfig
miner_by miner (start_mining config) = if config.interval == 0 then miner else some config
miner_by miner stop_mining = none
miner_by miner command = miner

module _ (sampler : SamplingPort) where
  -- The node serves its best chain and its peers are in order, the loop has this miner, and it is
  -- stopped or not.
  pub record IsLoop (stopped : Bool) (miner : Option MinerConfig) (l : LoopState) : Type 0 where
    pub node_IsNode : IsNode sampler l.node
    pub stopped_eq : l.stopped ≡ stopped
    pub miner_eq : l.miner ≡ miner

  -- The loop ends in such a state.
  abbrev pub Runs : LoopResult → Bool → Option MinerConfig → Type 0
  Runs r stopped miner = (l : LoopState) × (r ≡ running l) × IsLoop stopped miner l

  pub and_then-Runs :
      (r : LoopResult) (rest : LoopState → LoopResult) (stopped stopped' : Bool)
      (miner miner' : Option MinerConfig)
      → Runs r stopped miner
      → ((l : LoopState) → r ≡ running l → IsLoop stopped miner l → Runs (rest l) stopped' miner')
      → Runs (and_then r rest) stopped' miner'
  and_then-Runs r rest stopped stopped' miner miner' (l, ran, h) go =
      let (l', ran', h') = go l ran h in (l', ap (λ q. and_then q rest) ran ∙ ran', h')

module _ (sampler : SamplingPort) (addr_text : SocketAddr → Bytes)
    (parse_addr : Bytes → Option SocketAddr) (around : Surroundings) (l : LoopState) where
  -- A nonce is found for the block that is asked for, a trace has no more than 2 ^ 64 steps, and the
  -- hash of the block is not the zero digest.
  abbrev pub CanMine : ℕ → ℕ → Type 0
  CanMine training_seed sampling_entropy =
      (l.node.fork_choice.config.steps_per_block ≤ 2 ^ 64)
      × ((b : Block) × (mine_next_block toy_hash around.fuel l.node.fork_choice training_seed
              sampling_entropy
            ≡ some b)
          × NonZero b)

  -- No header that a peer sends hashes to the zero digest.
  abbrev pub CanSync : Type 0
  CanSync =
      (peer : SocketAddr)
      → SafeReplies sampler addr_text parse_addr (around.replies peer)
          l.node.sync.max_blocks_per_response l.node.network

  abbrev pub Permits : NodeCommand → Type 0
  Permits (mine_once training_seed sampling_entropy) = CanMine training_seed sampling_entropy
  Permits sync_once = CanSync
  Permits command = Unit

  after_add_peer-IsNode :
      (peer : SocketAddr) (r : NodeState × Bool)
      → IsNode sampler r.0
      → IsNode sampler (after_add_peer around peer r)
  unfolding announce_to_peer_and_count
  after_add_peer-IsNode peer (s, false) n = n
  after_add_peer-IsNode peer (s, true) n = elim (Bool-cases (around.outside.reaches peer)) [
    | inl reached ↦
        rw reached (record_hello_announcements-IsNode sampler addr_text parse_addr s 1 0 n)
    | inr unreached ↦
        rw unreached (record_hello_announcements-IsNode sampler addr_text parse_addr s 0 1 n)
  ]

  mined-IsNode :
      (seed entropy : ℕ) (b : Block)
      → InRange sampler
      → l.node.fork_choice.config.steps_per_block ≤ 2 ^ 64
      → mine_next_block toy_hash around.fuel l.node.fork_choice seed entropy ≡ some b
      → NonZero b
      → IsNode sampler l.node
      → (t : NodeState) × (mine_and_tell sampler addr_text parse_addr around.outside around.fuel
            l.node seed entropy
          ≡ mined t b)
        × IsNode sampler t
  unfolding mine_and_tell
  mined-IsNode seed entropy b in_range bound found nonzero n =
      let (s', stored, _, _, _, _) =
        mine_once_result sampler around.outside.disk around.fuel l.node seed entropy b in_range
          bound n.current found nonzero in
      let t =
        broadcast_block around.outside.reaches (announce_to_peers around.outside.reaches s') in
      let told : mine_and_tell sampler addr_text parse_addr around.outside around.fuel l.node seed
            entropy
          ≡ mined t b =
        ap (tell_mined sampler addr_text parse_addr around.outside) stored in
      (
        t,
        told,
        mine_and_tell-IsNode sampler addr_text parse_addr around.outside around.fuel l.node seed
            entropy b in_range bound found nonzero t told n,
      )

  pub sync_now-IsLoop :
      (stopped : Bool) (miner : Option MinerConfig)
      → CanSync
      → IsLoop sampler stopped miner l
      → IsLoop sampler stopped miner (sync_now sampler addr_text parse_addr around l)
  sync_now-IsLoop stopped miner safe h = record {
    node_IsNode =
        sync_once-IsNode sampler addr_text parse_addr around.replies l.node safe h.node_IsNode;
    stopped_eq = h.stopped_eq;
    miner_eq = h.miner_eq;
  }

  pub mined-Runs :
      (seed entropy : ℕ) (stopped : Bool) (miner : Option MinerConfig)
      → InRange sampler
      → CanMine seed entropy
      → IsLoop sampler stopped miner l
      → Runs sampler
          (after_mining l (
            mine_and_tell sampler addr_text parse_addr around.outside around.fuel l.node seed
              entropy))
          stopped
          miner
  mined-Runs seed entropy stopped miner in_range (bound, (b, found, nonzero)) h =
      let (t, told, now) = mined-IsNode seed entropy b in_range bound found nonzero h.node_IsNode in
      (
        record l { node = t },
        ap (after_mining l) told,
        record { node_IsNode = now; stopped_eq = h.stopped_eq; miner_eq = h.miner_eq },
      )

  checked-IsLoop :
      (config : MinerConfig) (stopped : Bool) (miner : Option MinerConfig)
      → IsLoop sampler stopped miner l
      → IsLoop sampler stopped
          (miner_by miner (start_mining config))
          (checked_miner around l config (validate_miner_config config))
  unfolding validate_miner_config
  checked-IsLoop config stopped miner h = elim (Bool-cases (config.interval == 0)) [
    | inl never ↦ rw never (record {
      node_IsNode = record { current = h.node_IsNode.current; book = h.node_IsNode.book };
      stopped_eq = h.stopped_eq;
      miner_eq = h.miner_eq;
    })
    | inr often ↦
        rw often
          (record { node_IsNode = h.node_IsNode; stopped_eq = h.stopped_eq; miner_eq = refl })
  ]

  -- A command leaves the node in order, and does to the miner and to the end of the loop what it is
  -- for.
  pub handle_command-Runs :
      (command : NodeCommand) (stopped : Bool) (miner : Option MinerConfig)
      → InRange sampler
      → Permits command
      → IsLoop sampler stopped miner l
      → Runs sampler
          (handle_command sampler addr_text parse_addr around l command)
          (stopped_by stopped command)
          (miner_by miner command)
  unfolding handle_command
  handle_command-Runs (mine_once seed entropy) stopped miner in_range permits h =
      mined-Runs seed entropy stopped miner in_range permits h
  handle_command-Runs (add_peer peer) stopped miner in_range permits h = (
    _,
    refl,
    record {
      node_IsNode =
          after_add_peer-IsNode peer (Peers.add_peer l.node peer)
            (add_peer-IsNode sampler addr_text parse_addr l.node peer h.node_IsNode);
      stopped_eq = h.stopped_eq;
      miner_eq = h.miner_eq;
    },
  )
  handle_command-Runs (start_mining config) stopped miner in_range permits h =
      (_, refl, checked-IsLoop config stopped miner h)
  handle_command-Runs stop_mining stopped miner in_range permits h =
      (_, refl, record { node_IsNode = h.node_IsNode; stopped_eq = h.stopped_eq; miner_eq = refl })
  handle_command-Runs sync_once stopped miner in_range permits h =
      (_, refl, sync_now-IsLoop stopped miner permits h)
  handle_command-Runs stop stopped miner in_range permits h =
      (_, refl, record { node_IsNode = h.node_IsNode; stopped_eq = refl; miner_eq = h.miner_eq })
