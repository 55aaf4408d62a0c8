-- ===== src/Node/Tests/Peers.antt =====
-- A node at concrete addresses, and what it does with the peers that it hears of.
use chesscoin.Prelude.{ℕ, ◌+◌, ◌*◌, ◌^◌, ◌≡◌, Option, none, [], ◌∷◌, length, Bytes, text, arith}
use chesscoin.Application.Config.{ChainConfig}
use chesscoin.Application.Chain
use chesscoin.Application.ForkChoice
use chesscoin.Node.Address.{SocketAddr, v4}
use chesscoin.Node.Config.{default_network, default_sync}
use chesscoin.Node.State.{NodeState, no_counts}
use chesscoin.Node.Peers.{normalize_initial_peers, add_advertised}
use chesscoin.Node.Peers.Book.{
  IsBook, IsChoice, HasBook, normalize_initial_peers-IsBook, add_advertised-HasBook,
}

abbrev pub tiny : ChainConfig
tiny = record { steps_per_block = 0; samples_per_block = 0; difficulty_zero_bits = 0 }

abbrev pub host : ℕ → SocketAddr
host n = record { ip = v4 (10 * 2 ^ 24 + n); port = 9000; flow_info = 0; scope_id = 0 }

-- A node that has just started.
abbrev pub idle : Option Bytes → NodeState
idle log = record {
  node_id = text "node";
  bound_addr = host 1;
  advertised_addr = host 1;
  chain = Chain.new tiny;
  fork_choice = ForkChoice.new tiny;
  peers = [];
  counters = no_counts;
  log = log;
  network = default_network;
  sync = default_sync;
}

normalize_initial_peers-IsBook_example :
    let peers = host 2 ∷ host 1 ∷ host 2 ∷ host 3 ∷ [] in
    let (book, rejected) = normalize_initial_peers (host 1) (host 1) peers 2 in
    IsBook (host 1) (host 1) 2 book
    × IsChoice (host 1) (host 1) 2 peers book
    × (length book + rejected ≡ 4)
normalize_initial_peers-IsBook_example =
    normalize_initial_peers-IsBook (host 1) (host 1) (host 2 ∷ host 1 ∷ host 2 ∷ host 3 ∷ []) 2

idle-HasBook : HasBook (idle none)
idle-HasBook = record { each = tt; distinct = tt; bounded = omega arith }

add_advertised-HasBook_example :
    HasBook (add_advertised (idle none) (host 2 ∷ host 1 ∷ host 2 ∷ []))
add_advertised-HasBook_example =
    add_advertised-HasBook (idle none) (host 2 ∷ host 1 ∷ host 2 ∷ []) idle-HasBook
