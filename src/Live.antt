-- ===== src/Live.antt =====
-- The live store: `useWebSocket` of frontend/src/hooks/useWebSocket.ts. This file holds what is done
-- with a message and the functions that the hook returns; Live/Connection.antt holds the socket.
pub mod Merging
pub mod Connection
use mathlib.Core.List.{foldl}
use shatter_nc.Prelude.{ℕ, Option, none, some, List, [], String}
use shatter_nc.Prelude.Tests.{nat_eq, string_eq}
use shatter_nc.Prelude.Maps.{Map, lookup, insert, erase}

-- `V` stands for the JSON values of the fields, which the store only passes on.
module _ {V : Type 0} where
  -- `{ ...prior, ...next }`
  unfoldable pub spread : Map String V → Map String V → Map String V
  spread = foldl (λ (m : Map String V) (entry : String × V). insert entry.0 entry.1 m)

-- An object with its id; a field that a payload omits is no key of `fields`.
pub record MachineStatus (V : Type 0) : Type 0 where
  pub machine_id : ℕ
  pub fields : Map String V

pub record CompressorStatus (V : Type 0) : Type 0 where
  pub compressor_id : ℕ
  pub fields : Map String V

-- `data`, by the ids that are `in` it: a machine's alone, a compressor's, or neither
pub data Payload (V : Type 0) : Type 0 where
  machine : MachineStatus V → Payload V
  compressor : CompressorStatus V → Payload V
  neither : Payload V

pub data WebSocketMessage (V : Type 0) : Type 0 where
  status_update : Option (Payload V) → WebSocketMessage V
  initial_status :
      Option (List (MachineStatus V)) → Option (List (CompressorStatus V)) → WebSocketMessage V
  compressor_status_update : Option (Payload V) → WebSocketMessage V

pub record Store (V : Type 0) : Type 0 where
  pub machines : Map ℕ (MachineStatus V)
  pub compressors : Map ℕ (CompressorStatus V)

-- `list || []`
abbrev pub or_empty {ℓ} : {A : Type ℓ} → Option (List A) → List A
or_empty none = []
or_empty (some l) = l

module _ {V : Type 0} where
  unfoldable pub merge_machine : Option (MachineStatus V) → MachineStatus V → MachineStatus V
  merge_machine none m = m
  merge_machine (some prior) m = record m { fields = spread prior.fields m.fields }

  unfoldable pub merge_compressor :
      Option (CompressorStatus V) → CompressorStatus V → CompressorStatus V
  merge_compressor none c = c
  merge_compressor (some prior) c = record c { fields = spread prior.fields c.fields }

  unfoldable pub machine_map : List (MachineStatus V) → Map ℕ (MachineStatus V)
  machine_map =
      foldl (λ (m : Map ℕ (MachineStatus V)) (s : MachineStatus V). insert s.machine_id s m) []

  unfoldable pub compressor_map : List (CompressorStatus V) → Map ℕ (CompressorStatus V)
  compressor_map =
      foldl
        (λ (m : Map ℕ (CompressorStatus V)) (s : CompressorStatus V). insert s.compressor_id s m) []

  unfoldable pub on_message : Store V → WebSocketMessage V → Store V
  on_message s (WebSocketMessage.initial_status (some machines) compressors) = record {
    machines = machine_map machines;
    compressors = compressor_map (or_empty compressors);
  }
  on_message s (WebSocketMessage.status_update (some (Payload.machine m))) = record s {
    machines = insert m.machine_id (merge_machine (lookup m.machine_id s.machines) m) s.machines;
  }
  on_message s (WebSocketMessage.compressor_status_update (some (Payload.compressor c))) =
      record s {
        compressors =
            insert c.compressor_id (merge_compressor (lookup c.compressor_id s.compressors) c)
              s.compressors;
      }
  on_message s _ = s

  -- `ws.onmessage`: a text that does not parse is logged and dropped
  unfoldable pub receive : Store V → Option (WebSocketMessage V) → Store V
  receive s none = s
  receive s (some message) = on_message s message

  unfoldable pub remove_machine : ℕ → Store V → Store V
  remove_machine id s = record s { machines = erase id s.machines }

  unfoldable pub add_machine : MachineStatus V → Store V → Store V
  add_machine m s = record s { machines = insert m.machine_id m s.machines }

  unfoldable pub remove_compressor : ℕ → Store V → Store V
  remove_compressor id s = record s { compressors = erase id s.compressors }

  unfoldable pub add_compressor : CompressorStatus V → Store V → Store V
  add_compressor c s = record s { compressors = insert c.compressor_id c s.compressors }
