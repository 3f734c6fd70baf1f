-- ===== src/Live/Merging.antt =====
-- What a message changes, field by field.
use mathlib.Core.List.{foldl}
use shatter_nc.Prelude.{
  ℕ, ◌≡◌, refl, ◌∙◌, Option, none, some, List, [], ◌∷◌, map, String, arith, if◌then◌else◌,
  Bool-cases, inl, inr,
}
use shatter_nc.Prelude.Tests.{◌==◌, nat_eq, string_eq}
use shatter_nc.Prelude.Maps.{Map, lookup, insert, lookup-insert}
use shatter_nc.Live.{
  spread, MachineStatus, CompressorStatus, Payload, WebSocketMessage, Store, merge_machine,
  machine_map, on_message, or_empty, compressor_map,
}

module _ {V : Type 0} where
  -- The last value that a payload gives a field, or `found` if it omits the field.
  abbrev pub last_value : String → Option V → Map String V → Option V
  last_value f found [] = found
  last_value f found ((g, v) ∷ m) = last_value f (if g == f then some v else found) m

  spread-lookup :
      (f : String) (prior next : Map String V)
      → lookup f (spread prior next) ≡ last_value f (lookup f prior) next
  unfolding spread
  spread-lookup f prior [] = refl
  spread-lookup f prior ((g, v) ∷ m) =
      spread-lookup f (insert g v prior) m ∙ rw (lookup-insert g f v prior)

  -- field `f` of machine `id`
  abbrev pub field_of : String → Option (MachineStatus V) → Option V
  field_of f none = none
  field_of f (some m) = lookup f m.fields

  merge_machine-field :
      (f : String) (prior : Option (MachineStatus V)) (m : MachineStatus V)
      → field_of f (some (merge_machine prior m)) ≡ (elim prior [
        | none ↦ lookup f m.fields
        | some p ↦ last_value f (lookup f p.fields) m.fields
      ])
  unfolding merge_machine
  merge_machine-field f none m = refl
  merge_machine-field f (some p) m = spread-lookup f p.fields m.fields

  -- A status update of a machine that is shown changes exactly the fields that it carries, of that
  -- machine alone: every other field and every other machine stays, and so do the compressors.
  pub on_message-status_update :
      (s : Store V) (prior m : MachineStatus V) (j : ℕ) (f : String)
      → lookup m.machine_id s.machines ≡ some prior
      → (field_of f (
            lookup j
              (on_message s (WebSocketMessage.status_update (some (Payload.machine m)))).machines)
          ≡ (if m.machine_id == j
              then last_value f (lookup f prior.fields) m.fields
              else field_of f (lookup j s.machines)))
        × ((on_message s (WebSocketMessage.status_update (some (Payload.machine m)))).compressors
            ≡ s.compressors)
  unfolding on_message
  on_message-status_update s prior m j f known =
      let merged = merge_machine (some prior) m in
      (
        rw (known, lookup-insert m.machine_id j merged s.machines)
            (elim (Bool-cases (m.machine_id == j)) [
              | inl same ↦ rw same (merge_machine-field f (some prior) m)
              | inr other ↦ rw other refl
            ]),
        refl,
      )

  -- the ids in the order in which they are shown
  abbrev pub ids : Map ℕ (MachineStatus V) → List ℕ
  ids = map (λ (e : ℕ × MachineStatus V). e.0)

  ids-insert :
      (k : ℕ) (v p : MachineStatus V) (m : Map ℕ (MachineStatus V))
      → lookup k m ≡ some p
      → ids (insert k v m) ≡ ids m
  unfolding lookup insert
  ids-insert k v p [] h = cc
  ids-insert k v p ((j, w) ∷ m) h = ground (arith, ids-insert k v p m)

  -- A status update of a machine that is shown leaves the machines in their order.
  pub on_message-order :
      (s : Store V) (prior m : MachineStatus V)
      → lookup m.machine_id s.machines ≡ some prior
      → ids (on_message s (WebSocketMessage.status_update (some (Payload.machine m)))).machines
        ≡ ids s.machines
  unfolding on_message
  on_message-order s prior m known = ids-insert m.machine_id _ prior s.machines known

  -- the last entry of a list with the id
  abbrev pub last_machine :
      ℕ → Option (MachineStatus V) → List (MachineStatus V) → Option (MachineStatus V)
  last_machine id found [] = found
  last_machine id found (m ∷ ms) = last_machine id (if m.machine_id == id then some m else found) ms

  machine_map-from :
      (id : ℕ) (m : Map ℕ (MachineStatus V)) (ms : List (MachineStatus V))
      → lookup id (
          foldl
            (λ (n : Map ℕ (MachineStatus V)) (s : MachineStatus V). insert s.machine_id s n)
            m
            ms)
        ≡ last_machine id (lookup id m) ms
  machine_map-from id m [] = refl
  machine_map-from id m (s ∷ ms) =
      machine_map-from id (insert s.machine_id s m) ms ∙ rw (lookup-insert s.machine_id id s m)

  -- An initial status replaces all machines: what is shown afterwards is what the message lists, the
  -- last entry for each id, whatever was shown before.
  pub on_message-initial_status :
      (s : Store V) (ms : List (MachineStatus V)) (cs : Option (List (CompressorStatus V))) (id : ℕ)
      → (lookup id (on_message s (WebSocketMessage.initial_status (some ms) cs)).machines
          ≡ last_machine id none ms)
        × ((on_message s (WebSocketMessage.initial_status (some ms) cs)).compressors
            ≡ compressor_map (or_empty cs))
  unfolding on_message machine_map lookup
  on_message-initial_status s ms cs id = (machine_map-from id [] ms, refl)
