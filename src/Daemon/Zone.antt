-- ===== src/Daemon/Zone.antt =====
-- internal/daemon/runtime.go: the node's attributes, and the Thunder zone that they name.
pub mod Smallest
mod Tests
use thunder_device_plugin.Base.{
  not, ◌&&◌, ◌||◌, Option, none, some, List, [], ◌∷◌, Str, Outcome, ok, err, Fault, ◌==◌, text_eq,
  Call, is_conflict, is_nil, trim_space, first_non_empty, str_lt, if◌then◌else◌, Assoc, lookup_or,
}
use thunder_device_plugin.Daemon.Config.{Config}

-- NodeInfo of internal/daemon/node.go.
pub record NodeInfo : Type 0 where
  pub labels : Assoc Str Str
  pub internal_ip : Str
  pub external_ip : Str

unfoldable pub node_ip : NodeInfo → Str
node_ip n = first_non_empty (n.internal_ip ∷ n.external_ip ∷ [])

pub record Zone : Type 0 where
  pub zone_id : Str
  pub display_name : Str

pub data ZoneError : Type 0 where
  -- "read kubernetes node %s"
  node_unreadable : Fault → ZoneError
  -- "%s must be specified or node %s must have label %s"
  no_zone : ZoneError
  -- "%s must be specified, or node %s must have label %s or an IP address"
  no_advertised_ip : ZoneError
  -- "list thunder zones", "create thunder zone", "list thunder zones after create"
  list_failed create_failed list_after_failed : Fault → ZoneError
  -- "thunder zone %q was not found after create"
  not_found_after_create : ZoneError

-- nodeInfoReader, and the calls of the Thunder API on zones.
pub record ZoneApi (W : Type 0) : Type 0 where
  pub read_node : Str → Call W Fault NodeInfo
  pub list_zones : Call W Fault (List Zone)
  pub create_zone : Str → W → Option Fault × W

-- The part of resolveNodeAttributes after the node is read.
unfoldable pub resolve_from_node : Config → NodeInfo → Outcome ZoneError Config
unfolding node_ip
resolve_from_node cfg n =
    let zone =
      if is_nil cfg.zone then trim_space (lookup_or [] cfg.zone_label n.labels) else cfg.zone in
    let ip =
      if is_nil cfg.advertised_ip
      then first_non_empty (lookup_or [] cfg.advertised_ip_label n.labels ∷ node_ip n ∷ [])
      else cfg.advertised_ip in
    if is_nil zone
    then err no_zone
    else if is_nil ip
    then err no_advertised_ip
    else ok (record cfg { zone = zone; advertised_ip = ip })

module _ {W : Type 0} (api : ZoneApi W) where
  unfoldable pub resolve_node_attributes : Config → Call W ZoneError Config
  unfolding resolve_from_node
  resolve_node_attributes cfg w =
      if not (is_nil cfg.zone) && not (is_nil cfg.advertised_ip)
      then (ok cfg, w)
      else (let (read, w') = api.read_node cfg.node w in
          (
            elim read [ ok n ↦ resolve_from_node cfg n | err fault ↦ err (node_unreadable fault) ],
            w',
          ))

-- The loop of findSmallestZoneID over the zones left, from the smallest so far ("" when none).
unfoldable pub smallest_from : Str → Str → List Zone → Str
smallest_from display_name smallest [] = smallest
smallest_from display_name smallest (zone ∷ zones) =
    smallest_from display_name
      (if not (zone.display_name == display_name)
        then smallest
        else if is_nil smallest || str_lt zone.zone_id smallest
        then zone.zone_id
        else smallest)
      zones

module _ {W : Type 0} (api : ZoneApi W) where
  -- The ID, or "" when there is none, which is what the code reports as not found.
  unfoldable pub find_smallest_zone_id : Str → Call W Fault Str
  unfolding smallest_from
  find_smallest_zone_id display_name w =
      let (zones, w') = api.list_zones w in
      (elim zones [ ok zs ↦ ok (smallest_from display_name [] zs) | err fault ↦ err fault ], w')

  -- The second look, after the zone was created.
  unfoldable pub find_created_zone : Str → Call W ZoneError Str
  unfolding find_smallest_zone_id
  find_created_zone display_name w =
      let (found, w') = find_smallest_zone_id display_name w in
      (
        elim found [
          | err fault ↦ err (list_after_failed fault)
          | ok zone_id ↦ if is_nil zone_id then err not_found_after_create else ok zone_id
        ],
        w',
      )

  unfoldable pub ensure_thunder_zone : Str → Call W ZoneError Str
  unfolding find_smallest_zone_id find_created_zone
  ensure_thunder_zone display_name w =
      let (found, w₁) = find_smallest_zone_id display_name w in
      elim found [
        | err fault ↦ (err (list_failed fault), w₁)
        | ok zone_id ↦
            if not (is_nil zone_id)
            then (ok zone_id, w₁)
            else (let (created, w₂) = api.create_zone display_name w₁ in
                elim created [
                  | none ↦ find_created_zone display_name w₂
                  | some fault ↦
                      if is_conflict fault
                      then find_created_zone display_name w₂
                      else (err (create_failed fault), w₂)
                ])
      ]
