-- ===== src/PostBody/Node.antt =====
-- The post body tree and its patches: `Node`, `PendingNode`, `Command`, `EmbedProvider` and `Patch`
-- of common/src/payloads/post_body.rs. A string is the list of its characters' code points.
use shamichan.Prelude.{ℕ, List, Bool, Option, ℕ_discrete}
use shamichan.PostBody.Text.{TextPatch}

pub data ℤ : Type 0 where
  pos : ℕ → ℤ
  negsuc : ℕ → ℤ

pub data PendingNode : Type 0 where
  flip eight_ball pyu p_count : PendingNode
  countdown : ℕ → PendingNode
  autobahn : ℕ → PendingNode
  dice : ℤ → ℕ → ℕ → PendingNode
  post_link : ℕ → PendingNode

pub data Command : Type 0 where
  dice : ℤ → ℕ → List ℕ → Command
  flip : Bool → Command
  eight_ball : List ℕ → Command
  countdown : ℕ → ℕ → Command
  autobahn : ℕ → Command
  pyu : ℕ → Command
  p_count : ℕ → Command

pub data EmbedProvider : Type 0 where
  you_tube sound_cloud vimeo coub twitter imgur bit_chute invidious drop_box : EmbedProvider

mutual
  pub data Node : Type 0 where
    empty newline : Node
    children : Nodes → Node
    text : List ℕ → Node
    post_link : ℕ → ℕ → ℕ → Node
    command : Command → Node
    url : List ℕ → Node
    reference : List ℕ → List ℕ → Node
    embed : EmbedProvider → List ℕ → Node
    code : List ℕ → Node
    spoiler bold italic quoted : Node → Node
    pending : PendingNode → Node

  pub data Nodes : Type 0 where
    nil : Nodes
    cons : Node → Nodes → Nodes

-- `Vec<(usize, Patch)>` is `Patches`.
mutual
  pub data Patch : Type 0 where
    replace : Node → Patch
    text : TextPatch → Patch
    wrapped : Patch → Patch
    children : Patches → Option ℕ → Nodes → Patch

  pub data Patches : Type 0 where
    nil : Patches
    cons : ℕ → Patch → Patches → Patches

ℤ-discrete : Discrete ℤ
ℤ-discrete = hlevel ℕ_discrete

-- The derived equality of nodes.
pub Node-discrete : Discrete Node
Node-discrete = hlevel (ℕ_discrete, ℤ-discrete)

pub Text-discrete : Discrete (List ℕ)
Text-discrete = hlevel ℕ_discrete
