-- ===== src/Guest/Settings.antt =====
-- pkg/agent/server/guest.go: UpdateSettings and ClearSettings, with what they send to the managers.
-- `Flow` and `flows_map` are the flows of FlowsMap; `Rules` and `new_rules` as for LoadDesc.
use sdnagent.Base.{
  ℕ, ℤ, Bool, true, false, not, ◌&&◌, ◌||◌, Option, none, some, List, [], ◌∷◌, ◌++◌, Str, str_eq,
  if◌then◌else◌,
}
use sdnagent.ZoneMan.{ZoneMan}
use sdnagent.Guest.Desc.{
  Nic, Guest, GuestDesc, TcData, tc_data, load_desc, is_volatile_host, needs_sync,
}
use sdnagent.Guest.Zones.{free_nics, reload_desc}

-- Guest of pkg/agent/server/guest.go; times count from any fixed instant.
pub record ServerGuest (Rules : Type 0) : Type 0 where
  pub guest : Guest Rules
  pub last_seen_pending : Option ℕ

-- What the managers are told about the guest: FlowMan.updateFlows of a bridge's flow manager, AddIfaces
-- and ClearIfaces of the traffic control manager, SetHostId and SetGuestNICs of the local VPC managers,
-- HostId of the agent, and the request of reloadDesc for a sync.
pub data Effect (Rules Flow : Type 0) : Type 0 where
  update_flows : Str → List Flow → Effect Rules Flow
  add_ifaces : List TcData → Bool → Effect Rules Flow
  clear_ifaces : Effect Rules Flow
  ovn_set_host_id : Str → Effect Rules Flow
  ovn_set_guest_nics : List (Nic Rules) → Effect Rules Flow
  md_set_guest_nics : List (Nic Rules) → Effect Rules Flow
  agent_host_id : Str → Effect Rules Flow
  perform_sync : Effect Rules Flow

-- The watcher: whether a bridge has a flow manager, whether there is a traffic control manager, and
-- DisableLocalVpc of the host.
pub record Managers : Type 0 where
  pub has_flow_man : Str → Bool
  pub has_tc_man : Bool
  pub disable_local_vpc : Bool

-- What one call finds: the decoded description, the ports that DumpPort finds, IsVM, Running, the time.
pub record Found (Rules : Type 0) : Type 0 where
  pub desc : Option (GuestDesc Rules)
  pub port_of : Str → Str → Option ℤ
  pub is_vm : Bool
  pub running : Bool
  pub now : ℕ

-- The error of refresh; `failed` is that of reloadDesc.
pub data Refreshed : Type 0 where
  ready : Refreshed
  failed : Refreshed
  volatile_host : Refreshed
  not_running : Refreshed
  port_not_ready : Refreshed

pub record Settled (Rules Flow : Type 0) : Type 0 where
  pub server_guest : ServerGuest Rules
  pub zone_man : ZoneMan
  pub effects : List (Effect Rules Flow)

unfoldable pub has_bridge : Str → List Str → Bool
has_bridge b [] = false
has_bridge b (b' ∷ bs) = str_eq b b' || has_bridge b bs

unfoldable pub no_flows : {Flow : Type 0} → List Str → List (Str × List Flow)
no_flows [] = []
no_flows (b ∷ bs) = (b, []) ∷ no_flows bs

module _ {Rules : Type 0} where
  unfoldable pub set_pending : ℕ → ServerGuest Rules → ServerGuest Rules
  set_pending now s = elim s.last_seen_pending [
    | none ↦ record s { last_seen_pending = some now }
    | some t ↦ s
  ]

  unfoldable pub clear_pending : ServerGuest Rules → ServerGuest Rules
  clear_pending s = record s { last_seen_pending = none }

  -- refreshNicPortNo
  unfoldable pub refresh_nic_port_no :
      (Str → Str → Option ℤ) → List (Nic Rules) → List (Nic Rules) × Bool
  refresh_nic_port_no port_of [] = ([], false)
  refresh_nic_port_no port_of (nic ∷ nics) =
      let (rest, ok) = refresh_nic_port_no port_of nics in
      elim (port_of nic.bridge nic.ifname_host) [
        | some n ↦ (record nic { port_no = n } ∷ rest, true)
        | none ↦ (nic ∷ rest, ok)
      ]

  -- What is refreshed once the description is loaded.
  unfoldable pub refresh_loaded : Found Rules → Guest Rules → Guest Rules × Refreshed
  unfolding refresh_nic_port_no is_volatile_host
  refresh_loaded f g =
      if is_volatile_host g
      then (g, volatile_host)
      else let (nics', ok0) = refresh_nic_port_no f.port_of g.nics in
        let (vpc_nics', ok1) = refresh_nic_port_no f.port_of g.vpc_nics in
        (
          record g { nics = nics'; vpc_nics = vpc_nics' },
          if not ok0 && not ok1
              then (if f.is_vm && not f.running then not_running else port_not_ready)
              else ready,
        )

  -- The deferred function of refresh.
  unfoldable pub mark_pending : ℕ → Refreshed → ServerGuest Rules → ServerGuest Rules
  unfolding set_pending clear_pending
  mark_pending now ready s = clear_pending s
  mark_pending now failed s = set_pending now s
  mark_pending now volatile_host s = s
  mark_pending now not_running s = s
  mark_pending now port_not_ready s = set_pending now s

  unfoldable pub refresh :
      (Str → Option Rules)
      → Found Rules
      → ServerGuest Rules
      → ZoneMan
      → ServerGuest Rules × ZoneMan × Refreshed
  unfolding reload_desc refresh_loaded mark_pending
  refresh new_rules f s z =
      let (g, z', loaded) = reload_desc new_rules f.desc s.guest z in
      if loaded
      then (let (g', r) = refresh_loaded f g in
          (mark_pending f.now r (record s { guest = g' }), z', r))
      else (mark_pending f.now failed (record s { guest = g }), z', failed)

  -- The bridges of the nics, each of them once; the source goes over them in any order.
  unfoldable pub bridges_of : List (Nic Rules) → List Str
  unfolding has_bridge
  bridges_of [] = []
  bridges_of (nic ∷ nics) =
      let rest = bridges_of nics in if has_bridge nic.bridge rest then rest else nic.bridge ∷ rest

  unfoldable pub tc_datas : List (Nic Rules) → List TcData
  unfolding tc_data
  tc_datas [] = []
  tc_datas (nic ∷ nics) = tc_data nic ∷ tc_datas nics

  module _ {Flow : Type 0} (m : Managers) where
    -- The flows for each bridge that has a flow manager.
    unfoldable pub send_flows : List (Str × List Flow) → List (Effect Rules Flow)
    send_flows [] = []
    send_flows ((bridge, flows) ∷ rest) =
        let sent = send_flows rest in
        if m.has_flow_man bridge then update_flows bridge flows ∷ sent else sent

    -- clearClassicFlows
    unfoldable pub clear_classic_flows : ServerGuest Rules → ZoneMan → Settled Rules Flow
    unfolding send_flows no_flows bridges_of free_nics clear_pending
    clear_classic_flows s z = record {
      server_guest = clear_pending s;
      zone_man = free_nics z s.guest.nics;
      effects = send_flows (no_flows (bridges_of s.guest.nics));
    }

    unfoldable pub update_tc : Bool → Guest Rules → List (Effect Rules Flow)
    unfolding tc_datas
    update_tc sync g = if m.has_tc_man then add_ifaces (tc_datas g.nics) sync ∷ [] else []

    unfoldable pub clear_tc : List (Effect Rules Flow)
    clear_tc = if m.has_tc_man then clear_ifaces ∷ [] else []

    unfoldable pub update_ovn : Guest Rules → List (Effect Rules Flow)
    update_ovn g =
        let has_vpc : Bool = elim g.vpc_nics [ [] ↦ false | nic ∷ nics ↦ true ] in
        if m.disable_local_vpc
        then []
        else if has_vpc && not (str_eq g.host_id [])
        then ovn_set_host_id g.host_id
          ∷ ovn_set_guest_nics g.vpc_nics
          ∷ md_set_guest_nics g.vpc_nics
          ∷ []
        else []

    unfoldable pub clear_ovn : List (Effect Rules Flow)
    clear_ovn =
        if m.disable_local_vpc then [] else ovn_set_guest_nics [] ∷ md_set_guest_nics [] ∷ []

    -- ClearSettings
    unfoldable pub clear_settings : ServerGuest Rules → ZoneMan → Settled Rules Flow
    unfolding clear_classic_flows clear_tc clear_ovn
    clear_settings s z =
        let c = clear_classic_flows s z in record c { effects = c.effects ++ clear_tc ++ clear_ovn }

    module _ (new_rules : Str → Option Rules)
        (flows_map : Guest Rules → List (Str × List Flow)) where
      -- reloadDesc asks for a sync as soon as the description is loaded.
      unfoldable pub sync_requests : Found Rules → Guest Rules → List (Effect Rules Flow)
      unfolding load_desc needs_sync
      sync_requests f g =
          let (g', read) = load_desc new_rules f.desc g in
          if read && needs_sync g' then perform_sync ∷ [] else []

      -- What UpdateSettings does on the error of refresh.
      unfoldable pub settle : Bool → ServerGuest Rules → ZoneMan → Refreshed → Settled Rules Flow
      unfolding send_flows update_tc update_ovn clear_settings
      settle sync s z ready = record {
        server_guest = s;
        zone_man = z;
        effects =
            send_flows (flows_map s.guest)
            ++ update_tc sync s.guest
            ++ update_ovn s.guest
            ++ (if str_eq s.guest.host_id [] then [] else agent_host_id s.guest.host_id ∷ []);
      }
      settle sync s z failed = record { server_guest = s; zone_man = z; effects = [] }
      settle sync s z volatile_host = clear_settings s z
      settle sync s z not_running = clear_settings s z
      settle sync s z port_not_ready = clear_settings s z

      -- UpdateSettings
      unfoldable pub update_settings :
          Found Rules → Bool → ServerGuest Rules → ZoneMan → Settled Rules Flow
      unfolding refresh settle sync_requests
      update_settings f sync s z =
          let (s', z', r) = refresh new_rules f s z in
          let d = settle sync s' z' r in record d { effects = sync_requests f s.guest ++ d.effects }
