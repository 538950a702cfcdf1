-- ===== src/Drift/Engine/Timed.antt =====
-- The time of the last observation of a target, where the times of the devices have an offset.
use nctl.Prelude.{
  String, true, false, ◌&&◌, List, [], ◌∷◌, Option, none, some, All, ◌≡◌, ◌==◌, refl, sym, ap, inl,
  inr, Bool-cases, Option-cases, if◌then◌else◌,
}
use nctl.Prelude.Dict
use nctl.Prelude.Dict.{Dict}
use nctl.Prelude.Result.{ok, ◌>>=◌}
use nctl.Sources.{DesiredNode, DesiredServicePlacement, DesiredSnapshot, nodes_by_id}
use nctl.Drift.Model.{Target}
use mathlib.Core.Path.{subst}
use nctl.Drift.Operations.{Moment}
use nctl.Drift.ActuationEvents.{Option-none-some}
use nctl.Drift.Engine.{
  ActualDevice, keep_latest, devices_by_id, device_of, find_node, has_id, inventory_time,
  collection_time, latest_inventory, observed_at_for,
}
use nctl.Drift.Engine.Readable.{IsAware, IsTimedDevice, Gives, after_total}

module _ (fromisoformat : String → Option Moment) where
  -- every device of the dict has times with an offset
  abbrev pub AreTimed : Dict ActualDevice → Type 0
  AreTimed devices =
      (id : String) (a : ActualDevice)
      → Dict.get devices id ≡ some a
      → IsTimedDevice fromisoformat a

  pub devices_by_id-AreTimed :
      (devices : List ActualDevice) (d : Dict ActualDevice)
      → All (IsTimedDevice fromisoformat) devices
      → AreTimed d
      → AreTimed (devices_by_id devices d)
  unfolding devices_by_id
  devices_by_id-AreTimed [] d h k = k
  devices_by_id-AreTimed (x ∷ rest) d h k =
      devices_by_id-AreTimed rest (Dict.put d x.id x) h.1 λ id a e. elim (Bool-cases (id == x.id)) [
        | inl same ↦
            subst (IsTimedDevice fromisoformat)
              (ap (λ o. elim o [ none ↦ x | some y ↦ y ])
                (rw (Dict.get-put d x.id id x, same) at e))
              h.0
        | inr other ↦ k id a (rw (Dict.get-put d x.id id x, other) at e)
      ]

  pub empty-AreTimed : AreTimed []
  unfolding Dict.get
  empty-AreTimed id a e = absurd (Option-none-some (sym e))

  abbrev IsTimedOption : Option ActualDevice → Type 0
  IsTimedOption none = Unit
  IsTimedOption (some a) = IsTimedDevice fromisoformat a

  get-IsTimedOption :
      (devices : Dict ActualDevice) (id : String)
      → AreTimed devices
      → IsTimedOption (Dict.get devices id)
  get-IsTimedOption devices id h = elim (Option-cases (Dict.get devices id)) [
    | inl q ↦ rw q tt
    | inr (a, q) ↦ rw q (h id a q)
  ]

  device_of-IsTimedOption :
      (devices : Dict ActualDevice) (n : Option DesiredNode)
      → AreTimed devices
      → IsTimedOption (device_of devices n)
  unfolding device_of
  device_of-IsTimedOption devices none h = tt
  device_of-IsTimedOption devices (some n) h = elim (Option-cases n.realized_device_id) [
    | inl q ↦ rw q tt
    | inr (id, q) ↦ elim (Bool-cases (id == "")) [
      | inl e ↦ rw (q, e) tt
      | inr e ↦ rw (q, e) (get-IsTimedOption devices id h)
    ]
  ]

  inventory_time-IsAware :
      (a : Option ActualDevice) → IsTimedOption a → IsAware (inventory_time fromisoformat a)
  inventory_time-IsAware none h = tt
  inventory_time-IsAware (some a) h = h.1

  collection_time-IsAware :
      (a : Option ActualDevice) → IsTimedOption a → IsAware (collection_time fromisoformat a)
  collection_time-IsAware none h = tt
  collection_time-IsAware (some a) h = h.0

  newest-Gives :
      (t latest : Option Moment) → IsAware t → IsAware latest → Gives IsAware (keep_latest t latest)
  newest-Gives none latest h k = (latest, refl, k)
  newest-Gives (some t) none h k = (some t, refl, h)
  newest-Gives (some t) (some u) h k =
      let (b, compared) = after_total t u h k in
      rw (compared, ◌>>=◌)
        (elim b as (λ x. Gives IsAware (ok (if x then some t else some u))) [
          | true ↦ (some t, refl, h)
          | false ↦ (some u, refl, k)
        ])

  latest_inventory-Gives :
      (id : Option String) (nodes : Dict DesiredNode) (devices : Dict ActualDevice)
      (ps : List DesiredServicePlacement) (latest : Option Moment)
      → AreTimed devices
      → IsAware latest
      → Gives IsAware (latest_inventory fromisoformat id nodes devices ps latest)
  unfolding latest_inventory
  latest_inventory-Gives id nodes devices [] latest h k = (latest, refl, k)
  latest_inventory-Gives id nodes devices (p ∷ ps) latest h k =
      elim (Bool-cases (has_id id p.service_id && (p.desired_state == "active"))) [
        | inl here ↦
            let (mid, e, m) =
              newest-Gives
                (inventory_time fromisoformat (device_of devices (Dict.get nodes p.node_id))) latest
                (inventory_time-IsAware (device_of devices (Dict.get nodes p.node_id))
                  (device_of-IsTimedOption devices (Dict.get nodes p.node_id) h))
                k in
            rw (here, e, ◌>>=◌) (latest_inventory-Gives id nodes devices ps mid h m)
        | inr other ↦ rw other (latest_inventory-Gives id nodes devices ps latest h k)
      ]

  pub observed_at_for-Gives :
      (t : Target) (d : DesiredSnapshot) (devices : Dict ActualDevice)
      → AreTimed devices
      → Gives IsAware (observed_at_for fromisoformat t d devices)
  unfolding observed_at_for
  observed_at_for-Gives t d devices h = elim (Bool-cases (t.kind == "service")) [
    | inl s ↦
        rw s (latest_inventory-Gives t.id (nodes_by_id d.nodes []) devices d.placements none h tt)
    | inr s ↦ elim (Bool-cases (t.kind == "node")) [
      | inr n ↦ rw (s, n) (none, refl, tt)
      | inl n ↦
          rw (s, n)
            (
              collection_time fromisoformat (device_of devices (find_node t.id d.nodes)),
              refl,
              collection_time-IsAware (device_of devices (find_node t.id d.nodes))
                  (device_of-IsTimedOption devices (find_node t.id d.nodes) h),
            )
    ]
  ]
