-- ===== src/Control/Digest.antt =====
-- Commands and their payload digests: `CoreCommand`, `payload_digest` and
-- `CoreCommand::payload_digest` of crates/chimera-core-manager/src/control/mod.rs. Texts are their
-- bytes. Of a request this has what the digest is made of.
use Prim.Native.Nat.{bit_xor}
use mathlib.Core.List.{foldl}
use chimera_service.Base.Text.{Bytes, codes}
use chimera_service.Base.{
  ℕ, ◌*◌, ◌%◌, ◌^◌, Bool, true, false, Option, none, some, List, [], ◌∷◌, ◌++◌,
}

-- one round of FNV-1a
unfoldable pub fnv_step : ℕ → ℕ → ℕ
fnv_step hash byte = bit_xor hash byte * 0x100000001b3 % 2 ^ 64

-- `payload_digest`, before it is printed in hexadecimal
unfoldable pub payload_digest : Bytes → ℕ
unfolding fnv_step
payload_digest bytes = foldl fnv_step 0xcbf29ce484222325 bytes

pub data LocalIpcPolicy : Type 0 where
  force prefer disable : LocalIpcPolicy

pub record LocalIpcSettings : Type 0 where
  pub policy : LocalIpcPolicy
  pub keep_http_controller : Bool

abbrev debug_policy : LocalIpcPolicy → Bytes
debug_policy force = codes "Force"
debug_policy prefer = codes "Prefer"
debug_policy disable = codes "Disable"

abbrev debug_bool : Bool → Bytes
debug_bool true = codes "true"
debug_bool false = codes "false"

-- the derived `Debug` of `Option<LocalIpcSettings>`
unfoldable pub debug_settings : Option LocalIpcSettings → Bytes
debug_settings none = codes "None"
debug_settings (some s) =
    codes "Some(LocalIpcSettings { policy: "
    ++ (debug_policy s.policy
        ++ (codes ", keep_http_controller: " ++ (debug_bool s.keep_http_controller ++ codes " })")))

pub record ReconcileRequest : Type 0 where
  pub kind : Bytes
  pub binary_path : Bytes
  pub version : Option Bytes
  pub features : List Bytes
  -- as it prints
  pub expected_applied : Option Bytes
  pub local_ipc : Option LocalIpcSettings
  pub config : Bytes
  pub expected_digest : Option Bytes

pub data Command : Type 0 where
  reconcile : ReconcileRequest → Command
  stop recover shutdown : Command

abbrev pub is_shutdown : Command → Bool
is_shutdown shutdown = true
is_shutdown _ = false

abbrev or_empty : Option Bytes → Bytes
or_empty none = []
or_empty (some bytes) = bytes

-- each text with a NUL behind it
abbrev terminated : List Bytes → Bytes
terminated [] = []
terminated (text ∷ texts) = text ++ (0 ∷ terminated texts)

abbrev nul : Bytes
nul = 0 ∷ []

-- the texts that are fed to the buffer, in a row
abbrev join : List Bytes → Bytes
join [] = []
join (text ∷ texts) = text ++ join texts

unfoldable pub reconcile_payload : ReconcileRequest → Bytes
unfolding debug_settings
reconcile_payload r = join (
    codes "reconcile"
    ∷ nul
    ∷ r.kind
    ∷ nul
    ∷ r.binary_path
    ∷ nul
    ∷ or_empty r.version
    ∷ nul
    ∷ terminated r.features
    ∷ or_empty r.expected_applied
    ∷ nul
    ∷ codes "controller:"
    ∷ debug_settings r.local_ipc
    ∷ nul
    ∷ r.config
    ∷ nul
    ∷ codes "digest:"
    ∷ or_empty r.expected_digest
    ∷ [])

-- `CoreCommand::payload_digest`
unfoldable pub command_digest : Command → ℕ
unfolding reconcile_payload payload_digest
command_digest (reconcile r) = payload_digest (reconcile_payload r)
command_digest stop = payload_digest (codes "stop")
command_digest recover = payload_digest (codes "recover")
command_digest shutdown = payload_digest (codes "shutdown")

-- `options.local_ipc.get_or_insert(default)` on a reconcile
unfoldable pub with_local_ipc : LocalIpcSettings → Command → Command
with_local_ipc default (reconcile r) =
    reconcile (record r { local_ipc = some (elim r.local_ipc [ none ↦ default | some s ↦ s ]) })
with_local_ipc default command = command
