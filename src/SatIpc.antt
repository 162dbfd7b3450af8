-- ===== src/SatIpc.antt =====
-- app/common/sat_ipc.h: what the two cores say to each other, and its bytes in memory.
use hubble_reference_thingy.Common.{ℕ, List, [], ◌∷◌}

-- enum sat_ipc_command
pub data SatCommand : Type 0 where
  send init enable disable ok fail : SatCommand

-- struct sat_ipc_base, or struct sat_ipc_packet with its frames
pub data Message : Type 0 where
  base : SatCommand → Message
  packet : SatCommand → List ℕ → Message

-- the enumeration's numbers
abbrev pub code : SatCommand → ℕ
code send = 0
code init = 1
code enable = 2
code disable = 3
code ok = 4
code fail = 5

-- an enumeration takes four bytes, the lowest first
abbrev pub bytes_of : Message → List ℕ
bytes_of (base cmd) = code cmd ∷ 0 ∷ 0 ∷ 0 ∷ []
bytes_of (packet cmd frames) = code cmd ∷ 0 ∷ 0 ∷ 0 ∷ frames

-- what the sources fill in of Zephyr's struct ipc_ept_cfg: the endpoint's name, and the functions that
-- it calls when the other core has bound it and when a message has come
pub record IpcEptCfg {ℓ} (A : Type ℓ) (B : Type ℓ) : Type ℓ where
  pub name : List ℕ
  pub bound : A
  pub received : B
