-- ===== src/Node/Loop/Turns.antt =====
-- The turns of `node_loop`, up to the one that hears that the node is to stop.
use chesscoin.Prelude.{
  ℕ, zero, suc, ◌+◌, ◌≡◌, refl, Bool, true, false, Bool-cases, ◌&&◌, leb, some, none, inl, inr,
  Bytes, Option, List, [], ◌∷◌, ◌∙◌, ap,
}
use chesscoin.Prelude.Words.{rotate_left}
use chesscoin.Ports.{SamplingPort, InRange}
use chesscoin.Node.Address.{SocketAddr}
use chesscoin.Node.Config.{MinerConfig}
use chesscoin.Node.State.{NodeState}
use chesscoin.Node.Dispatch.{accept_connection, mine_and_tell}
use chesscoin.Node.Steps.{IsNode}
use chesscoin.Node.Steps.Reach.{accept_connection-IsNode}
use chesscoin.Node.Loop.{
  NodeCommand, LoopState, Surroundings, Turn, LoopResult, running, with_node, after_mining,
  and_then, accept_ready_connections, sync_now, handle_command, handle_commands, mine_if_due,
  sync_if_due, loop_turn, node_loop,
}
use chesscoin.Node.Loop.Commands.{
  stopped_by, miner_by, IsLoop, Runs, and_then-Runs, CanMine, CanSync, Permits, mined-Runs,
  sync_now-IsLoop, handle_command-Runs,
}

-- Whether the node is stopped after some commands, and the miner that it has then.
abbrev pub stopped_after : Bool → List NodeCommand → Bool
stopped_after stopped [] = stopped
stopped_after stopped (command ∷ commands) = stopped_after (stopped_by stopped command) commands

abbrev pub miner_after : Option MinerConfig → List NodeCommand → Option MinerConfig
miner_after miner [] = miner
miner_after miner (command ∷ commands) = miner_after (miner_by miner command) commands

-- The turns that are taken: up to the first one that hears `stop`, that one included.
abbrev pub taken : Bool → List Turn → List Turn
taken stopped [] = []
taken true (turn ∷ turns) = []
taken false (turn ∷ turns) = turn ∷ taken (stopped_after false turn.commands) turns

-- The same over the commands of several turns.
abbrev pub stopped_after_turns : Bool → List Turn → Bool
stopped_after_turns stopped [] = stopped
stopped_after_turns stopped (turn ∷ turns) =
    stopped_after_turns (stopped_after stopped turn.commands) turns

abbrev pub miner_after_turns : Option MinerConfig → List Turn → Option MinerConfig
miner_after_turns miner [] = miner
miner_after_turns miner (turn ∷ turns) = miner_after_turns (miner_after miner turn.commands) turns

module _ (sampler : SamplingPort) (addr_text : SocketAddr → Bytes)
    (parse_addr : Bytes → Option SocketAddr) where
  -- Each command can be carried out in the state that it is heard in.
  abbrev pub PermitsAll : Surroundings → LoopState → List NodeCommand → Type 0
  PermitsAll around l [] = Unit
  PermitsAll around l (command ∷ commands) =
      Permits sampler addr_text parse_addr around l command
      × ((l' : LoopState)
          → handle_command sampler addr_text parse_addr around l command ≡ running l'
          → PermitsAll around l' commands)

  -- So can what is due by the clock.
  abbrev pub MayMine : Surroundings → LoopState → Type 0
  MayMine around l =
      (config : MinerConfig)
      → l.miner ≡ some config
      → leb l.next_mine_at around.now ≡ true
      → CanMine sampler addr_text parse_addr around l around.seed (rotate_left around.seed 7)

  abbrev pub MaySync : Surroundings → LoopState → Type 0
  MaySync around l =
      (l.sync.enabled && leb l.next_sync_at around.now) ≡ true
      → CanSync sampler addr_text parse_addr around l

  abbrev pub ready : Surroundings → LoopState → LoopState
  ready around l = with_node l (accept_ready_connections around.waiting l.node)

  abbrev pub PermitsTurn : Turn → LoopState → Type 0
  PermitsTurn turn l =
      PermitsAll turn.around (ready turn.around l) turn.commands
      × ((l₁ : LoopState)
          → handle_commands sampler addr_text parse_addr turn.around (ready turn.around l)
              turn.commands
            ≡ running l₁
          → MayMine turn.around l₁
            × ((l₂ : LoopState)
                → mine_if_due sampler addr_text parse_addr turn.around l₁ l₁.miner ≡ running l₂
                → MaySync turn.around l₂))

  abbrev pub PermitsTurns : List Turn → LoopState → Type 0
  PermitsTurns [] l = Unit
  PermitsTurns (turn ∷ turns) l =
      l.stopped ≡ false
      → PermitsTurn turn l
        × ((l' : LoopState)
            → loop_turn sampler addr_text parse_addr turn.around l turn.commands ≡ running l'
            → PermitsTurns turns l')

  accept_ready_connections-IsNode :
      (n : ℕ) (s : NodeState) → IsNode sampler s → IsNode sampler (accept_ready_connections n s)
  unfolding accept_ready_connections
  accept_ready_connections-IsNode zero s h = h
  accept_ready_connections-IsNode (suc n) s h =
      accept_ready_connections-IsNode n (accept_connection s).0
        (accept_connection-IsNode sampler addr_text parse_addr s h)

  handle_commands-Runs :
      (around : Surroundings) (l : LoopState) (commands : List NodeCommand) (stopped : Bool)
      (miner : Option MinerConfig)
      → InRange sampler
      → PermitsAll around l commands
      → IsLoop sampler stopped miner l
      → Runs sampler
          (handle_commands sampler addr_text parse_addr around l commands)
          (stopped_after stopped commands)
          (miner_after miner commands)
  unfolding handle_commands
  handle_commands-Runs around l [] stopped miner in_range permits h = (l, refl, h)
  handle_commands-Runs around l (command ∷ commands) stopped miner in_range permits h =
      and_then-Runs sampler (handle_command sampler addr_text parse_addr around l command)
        (λ l'. handle_commands sampler addr_text parse_addr around l' commands)
        (stopped_by stopped command) (stopped_after (stopped_by stopped command) commands)
        (miner_by miner command) (miner_after (miner_by miner command) commands)
        (handle_command-Runs sampler addr_text parse_addr around l command stopped miner in_range
          permits.0 h)
        (λ l' ran h'.
          handle_commands-Runs around l' commands (stopped_by stopped command)
            (miner_by miner command) in_range (permits.1 l' ran) h')

  mine_if_due-Runs :
      (around : Surroundings) (l : LoopState) (set : Option MinerConfig) (stopped : Bool)
      (miner : Option MinerConfig)
      → l.miner ≡ set
      → InRange sampler
      → MayMine around l
      → IsLoop sampler stopped miner l
      → Runs sampler (mine_if_due sampler addr_text parse_addr around l set) stopped miner
  mine_if_due-Runs around l none stopped miner same in_range may h = (l, refl, h)
  mine_if_due-Runs around l (some config) stopped miner same in_range may h =
      elim (Bool-cases (leb l.next_mine_at around.now)) [
        | inr early ↦ rw early (l, refl, h)
        | inl due ↦ rw due (
            and_then-Runs sampler
              (after_mining l (
                mine_and_tell sampler addr_text parse_addr around.outside around.fuel l.node
                  around.seed (rotate_left around.seed 7)))
              (λ l'. running (record l' { next_mine_at = around.now + config.interval })) stopped
              stopped miner miner
              (mined-Runs sampler addr_text parse_addr around l around.seed
                (rotate_left around.seed 7) stopped miner in_range (may config same due) h)
              (λ l' ran h'. (
                record l' { next_mine_at = around.now + config.interval },
                refl,
                record {
                  node_IsNode = h'.node_IsNode;
                  stopped_eq = h'.stopped_eq;
                  miner_eq = h'.miner_eq;
                },
              )))
      ]

  sync_if_due-Runs :
      (around : Surroundings) (l : LoopState) (stopped : Bool) (miner : Option MinerConfig)
      → MaySync around l
      → IsLoop sampler stopped miner l
      → Runs sampler (sync_if_due sampler addr_text parse_addr around l) stopped miner
  sync_if_due-Runs around l stopped miner may h =
      elim (Bool-cases (l.sync.enabled && leb l.next_sync_at around.now)) [
        | inr early ↦ rw early (l, refl, h)
        | inl due ↦ rw due (
          sync_now sampler addr_text parse_addr around l,
          refl,
          sync_now-IsLoop sampler addr_text parse_addr around l stopped miner (may due) h,
        )
      ]

  loop_turn-Runs :
      (turn : Turn) (l : LoopState) (stopped : Bool) (miner : Option MinerConfig)
      → InRange sampler
      → PermitsTurn turn l
      → IsLoop sampler stopped miner l
      → Runs sampler
          (loop_turn sampler addr_text parse_addr turn.around l turn.commands)
          (stopped_after stopped turn.commands)
          (miner_after miner turn.commands)
  unfolding loop_turn
  loop_turn-Runs turn l stopped miner in_range permits h =
      let around = turn.around in
      let start = ready around l in
      let stopped' = stopped_after stopped turn.commands in
      let miner' = miner_after miner turn.commands in
      let heard = handle_commands sampler addr_text parse_addr around start turn.commands in
      let begun : IsLoop sampler stopped miner start = record {
        node_IsNode = accept_ready_connections-IsNode around.waiting l.node h.node_IsNode;
        stopped_eq = h.stopped_eq;
        miner_eq = h.miner_eq;
      } in
      let (l₁, ran₁, h₁) =
        handle_commands-Runs around start turn.commands stopped miner in_range permits.0 begun in
      let (may_mine, then_sync) = permits.1 l₁ ran₁ in
      let (l₂, ran₂, h₂) =
        mine_if_due-Runs around l₁ l₁.miner stopped' miner' refl in_range may_mine h₁ in
      let (l₃, ran₃, h₃) = sync_if_due-Runs around l₂ stopped' miner' (then_sync l₂ ran₂) h₂ in
      (l₃, rw (ran₁, ran₂) ran₃, h₃)

  no_turn :
      (turns : List Turn) (l : LoopState)
      → l.stopped ≡ true
      → node_loop sampler addr_text parse_addr turns l ≡ running l
  unfolding node_loop
  no_turn [] l stopped = refl
  no_turn (turn ∷ turns) l stopped =
      ap
        (λ b. elim b [
          | true ↦ running l
          | false ↦
              and_then (loop_turn sampler addr_text parse_addr turn.around l turn.commands)
                (λ l'. node_loop sampler addr_text parse_addr turns l')
        ])
        stopped

  -- A turn that is taken, and those behind it.
  next_turn :
      (turn : Turn) (turns : List Turn) (l l₁ : LoopState) (r : LoopResult)
      → l.stopped ≡ false
      → loop_turn sampler addr_text parse_addr turn.around l turn.commands ≡ running l₁
      → node_loop sampler addr_text parse_addr turns l₁ ≡ r
      → node_loop sampler addr_text parse_addr (turn ∷ turns) l ≡ r
  unfolding node_loop
  next_turn turn turns l l₁ r going ran later =
      ap
        (λ b. elim b [
          | true ↦ running l
          | false ↦
              and_then (loop_turn sampler addr_text parse_addr turn.around l turn.commands)
                (λ l'. node_loop sampler addr_text parse_addr turns l')
        ])
        going
      ∙ ap (λ q. and_then q (λ l'. node_loop sampler addr_text parse_addr turns l')) ran
      ∙ later

  node_loop-Runs :
      (turns : List Turn) (l : LoopState) (stopped : Bool) (miner : Option MinerConfig)
      → InRange sampler
      → PermitsTurns turns l
      → IsLoop sampler stopped miner l
      → (l' : LoopState) × (node_loop sampler addr_text parse_addr turns l ≡ running l')
        × (node_loop sampler addr_text parse_addr (taken stopped turns) l ≡ running l')
        × IsLoop sampler
            (stopped_after_turns stopped (taken stopped turns))
            (miner_after_turns miner (taken stopped turns))
            l'
  unfolding node_loop
  node_loop-Runs [] l stopped miner in_range permits h = (l, refl, refl, h)
  node_loop-Runs (turn ∷ turns) l true miner in_range permits h =
      (l, no_turn (turn ∷ turns) l h.stopped_eq, refl, h)
  node_loop-Runs (turn ∷ turns) l false miner in_range permits h =
      let (may, later) = permits h.stopped_eq in
      let (l₁, ran₁, h₁) = loop_turn-Runs turn l false miner in_range may h in
      let (l₂, ran₂, ran_taken, h₂) =
        node_loop-Runs turns l₁ (stopped_after false turn.commands)
          (miner_after miner turn.commands) in_range (later l₁ ran₁) h₁ in
      (
        l₂,
        next_turn turn turns l l₁ (running l₂) h.stopped_eq ran₁ ran₂,
        next_turn turn (taken (stopped_after false turn.commands) turns) l l₁ (running l₂)
            h.stopped_eq ran₁ ran_taken,
        h₂,
      )

  -- The loop of a node runs the turns up to the first one that hears `stop`, that one included, and
  -- those behind it change nothing. It is stopped afterwards if it heard `stop` or was stopped, has
  -- the miner of the last command that sets a valid one or stops it, or else its own, serves the best
  -- chain of its fork choice, and its peers are in order, if that was so before; no assertion fails
  -- where a block is mined. The indices of the sampler are in range; for each block to be mined a nonce is found, and
  -- the trace has no more than 2 ^ 64 steps; no hash of a mined block or of a header that a peer
  -- sends is the zero digest.
  pub node_loop_result :
      (turns : List Turn) (l : LoopState)
      → InRange sampler
      → PermitsTurns turns l
      → IsNode sampler l.node
      → (l' : LoopState) × (node_loop sampler addr_text parse_addr turns l ≡ running l')
        × (node_loop sampler addr_text parse_addr (taken l.stopped turns) l ≡ running l')
        × (l'.stopped ≡ stopped_after_turns l.stopped (taken l.stopped turns))
        × (l'.miner ≡ miner_after_turns l.miner (taken l.stopped turns))
        × IsNode sampler l'.node
  node_loop_result turns l in_range permits n =
      let h : IsLoop sampler l.stopped l.miner l = record {
        node_IsNode = n;
        stopped_eq = refl;
        miner_eq = refl;
      } in
      let (l', ran, ran_taken, h') = node_loop-Runs turns l l.stopped l.miner in_range permits h in
      (l', ran, ran_taken, h'.stopped_eq, h'.miner_eq, h'.node_IsNode)
