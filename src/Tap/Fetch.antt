-- ===== src/Tap/Fetch.antt =====
-- pkg/agent/server/tap.go: what is read of the JSON that ovs-vsctl prints.
use sdnagent.Base.{
  Option, none, some, List, [], ◌∷◌, Str, codes, str_eq, str_eq_instance, lookup, insert,
  if◌then◌else◌,
}
use sdnagent.NicFlows.Defs.{Outcome, panicked, failed, done}

-- A parsed text: one that GetString gives a string for, an array, or another.
mutual
  pub data Json : Type 0 where
    text : Str → Json
    array : JsonList → Json
    other : Json

  pub data JsonList : Type 0 where
    end : JsonList
    item : Json → JsonList → JsonList

-- GetArray and GetString, whose error comes with the value that `or` names.
unfoldable pub get_array : Json → Option JsonList
get_array (array js) = some js
get_array _ = none

unfoldable pub string_or_empty : Json → Str
string_or_empty (text s) = s
string_or_empty _ = []

-- fetchValue
unfoldable pub fetch_value : Json → Str
unfolding string_or_empty str_eq
fetch_value (array (item key (item id js))) =
    if str_eq (string_or_empty key) (codes "uuid") then string_or_empty id else []
fetch_value _ = []

-- fetchPortNameIdMapInternal, of the rows of the table: a row that is no array is an error.
unfoldable pub port_rows : List (Str × Str) → JsonList → Option (List (Str × Str))
unfolding insert fetch_value
port_rows ret end = some ret
port_rows ret (item (array (item name (item id js))) rows) =
    port_rows (insert (string_or_empty name) (fetch_value id) ret) rows
port_rows ret (item (array js) rows) = port_rows ret rows
port_rows ret (item _ rows) = none

-- sMirrorConfig, with the ids in place of the names while it is read.
pub record MirrorConfig : Type 0 where
  pub mirror : Str
  pub bridge : Str
  pub output : Str

-- fetchMirrorNameIdMapInternal: a row of two columns is read at its third.
unfoldable pub mirror_rows :
    List (Str × MirrorConfig) → JsonList → Outcome (List (Str × MirrorConfig))
unfolding insert fetch_value
mirror_rows ret end = done ret
mirror_rows ret (item (array (item name (item id end))) rows) = panicked
mirror_rows ret (item (array (item name (item id (item output js)))) rows) =
    mirror_rows
      (insert (string_or_empty name)
        (record { mirror = fetch_value id; bridge = []; output = fetch_value output }) ret)
      rows
mirror_rows ret (item (array js) rows) = mirror_rows ret rows
mirror_rows ret (item _ rows) = failed

-- The loop over a set: an element with no second member is a panic.
unfoldable pub set_members : Str → List (Str × Str) → JsonList → Option (List (Str × Str))
unfolding insert string_or_empty
set_members bridge ret end = some ret
set_members bridge ret (item (array (item key (item id js))) members) =
    set_members bridge (insert (string_or_empty id) bridge ret) members
set_members bridge ret (item _ members) = none

-- The second column of a row: an id, or a set of ids.
unfoldable pub bridge_mirrors : Str → List (Str × Str) → JsonList → Outcome (List (Str × Str))
unfolding insert string_or_empty str_eq set_members
bridge_mirrors bridge ret (item (text key) (item value js)) =
    if str_eq key (codes "uuid")
    then done (insert (string_or_empty value) bridge ret)
    else if str_eq key (codes "set")
    then (elim value [
      | array members ↦ elim (set_members bridge ret members) [
        | none ↦ panicked
        | some ret' ↦ done ret'
      ]
      | _ ↦ done ret
    ])
    else done ret
bridge_mirrors bridge ret (item key (item value js)) = failed
bridge_mirrors bridge ret _ = done ret

-- fetchMirrorIdBridgeMapInternal
unfoldable pub bridge_rows : List (Str × Str) → JsonList → Outcome (List (Str × Str))
unfolding bridge_mirrors
bridge_rows ret end = done ret
bridge_rows ret (item (array (item name (item (array js) more))) rows) =
    elim (bridge_mirrors (string_or_empty name) ret js) [
      | panicked ↦ panicked
      | failed ↦ failed
      | done ret' ↦ bridge_rows ret' rows
    ]
bridge_rows ret (item (array (item name (item _ more))) rows) = failed
bridge_rows ret (item (array js) rows) = bridge_rows ret rows
bridge_rows ret (item _ rows) = failed

abbrev or_empty : Option Str → Str
or_empty none = []
or_empty (some s) = s

-- The loop of fetchMirrorList; `ports` is the map from names to ids that it looks up an id in.
unfoldable pub name_bridges :
    List (Str × Str) → List (Str × Str) → List (Str × MirrorConfig) → List (Str × MirrorConfig)
unfolding lookup
name_bridges bridges ports [] = []
name_bridges bridges ports ((name, m) ∷ ms) =
    (
      name,
      record {
        mirror = name;
        bridge = or_empty (lookup m.mirror bridges);
        output = or_empty (lookup m.output ports);
      },
    )
    ∷ name_bridges bridges ports ms

-- fetchMirrorList, of the rows of the three tables; `none` is an error of ovs-vsctl or of the parser.
unfoldable pub fetch_mirror_list :
    Option JsonList → Option JsonList → Option JsonList → Outcome (List (Str × MirrorConfig))
unfolding mirror_rows bridge_rows port_rows name_bridges
fetch_mirror_list none bridge_table port_table = failed
fetch_mirror_list (some mirror_table) bridge_table port_table = elim (mirror_rows [] mirror_table) [
  | panicked ↦ panicked
  | failed ↦ failed
  | done ms ↦ elim bridge_table [
    | none ↦ failed
    | some rows ↦ elim (bridge_rows [] rows) [
      | panicked ↦ panicked
      | failed ↦ failed
      | done bridges ↦ elim port_table [
        | none ↦ failed
        | some rows' ↦ elim (port_rows [] rows') [
          | none ↦ failed
          | some ports ↦ done (name_bridges bridges ports ms)
        ]
      ]
    ]
  ]
]
