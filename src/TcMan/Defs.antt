-- ===== src/TcMan/Defs.antt =====
-- pkg/agent/server/tcman.go: the commands of the manager of traffic control, and its idle check. What is
-- done to an interface, with the program tc, is an `Action`; `none` is a panic.
use sdnagent.Base.{
  Bool, Option, none, some, List, [], ◌∷◌, ◌++◌, Str, codes, str_eq, str_eq_instance, lookup,
  insert, delete, if◌then◌else◌,
}
use sdnagent.Guest.{TcData}

-- TcManSection: the pages, by the name of the interface.
abbrev pub Section : Type 0
Section = List (Str × TcData)

abbrev pub Book : Type 0
Book = List (Str × Section)

-- tcManHostLocalWho
abbrev pub host_local_who : Str
host_local_who = codes "hostlocal"

-- doCheckGuestIfbTcData and then doCheckGuestTcData, doCleanGuestIfbTcData, and doCheckHostTcData with the
-- pages of guests on the bridge.
pub data Action : Type 0 where
  check_guest : TcData → Action
  clean_guest : TcData → Action
  check_host : TcData → List TcData → Action

-- TcManCmd, and the tick of the idle timer.
pub data TcEvent : Type 0 where
  add_cmd : Str → Section → Bool → TcEvent
  del_cmd : Str → TcEvent
  sync_cmd : TcEvent
  idle_tick : TcEvent

-- The pages that AddIfaces sends.
unfoldable pub pages_of : List TcData → Section
unfolding insert
pages_of [] = []
pages_of (td ∷ tds) = insert td.ifname td (pages_of tds)

-- doCheckGuestSection and doCleanGuestSection; the pages are visited in any order.
unfoldable pub check_guest_section : Section → List Action
check_guest_section [] = []
check_guest_section ((ifname, td) ∷ pages) = check_guest td ∷ check_guest_section pages

unfoldable pub clean_guest_section : Section → List Action
clean_guest_section [] = []
clean_guest_section ((ifname, td) ∷ pages) = clean_guest td ∷ clean_guest_section pages

unfoldable pub bridge_pages : Str → Section → List TcData
bridge_pages bridge [] = []
bridge_pages bridge ((ifname, td) ∷ pages) =
    let rest = bridge_pages bridge pages in if str_eq td.tc_bridge bridge then td ∷ rest else rest

-- The pages of guests that are merged into the tree of a bridge.
unfoldable pub guest_pages : Str → Book → List TcData
unfolding bridge_pages str_eq
guest_pages bridge [] = []
guest_pages bridge ((who, section) ∷ book) =
    let rest = guest_pages bridge book in
    if str_eq who host_local_who then rest else bridge_pages bridge section ++ rest

unfoldable pub check_host_section : Book → Section → List Action
unfolding guest_pages
check_host_section book [] = []
check_host_section book ((ifname, td) ∷ pages) =
    check_host td (guest_pages td.tc_bridge book) ∷ check_host_section book pages

unfoldable pub check_guests : Book → List Action
unfolding check_guest_section str_eq
check_guests [] = []
check_guests ((who, section) ∷ book) =
    let rest = check_guests book in
    if str_eq who host_local_who then rest else check_guest_section section ++ rest

-- doIdleCheck: with no section for the host, the loop over its pages reads a nil pointer.
unfoldable pub do_idle_check : Book → Option (List Action)
unfolding check_guests check_host_section lookup
do_idle_check book = elim (lookup host_local_who book) [
  | none ↦ none
  | some section ↦ some (check_guests book ++ check_host_section book section)
]

unfoldable pub do_check_section : Str → Book → Section → List Action
unfolding check_guest_section check_host_section str_eq
do_check_section who book section =
    if str_eq who host_local_who
    then check_host_section book section
    else check_guest_section section

unfoldable pub do_clean_section : Str → Section → List Action
unfolding clean_guest_section str_eq
do_clean_section who section = if str_eq who host_local_who then [] else clean_guest_section section

unfoldable pub keep_book : Book → Option (List Action) → Option (Book × List Action)
keep_book book none = none
keep_book book (some actions) = some (book, actions)

-- doCmd, and the case of the timer in Start.
unfoldable pub do_event : TcEvent → Book → Option (Book × List Action)
unfolding insert delete lookup do_check_section do_clean_section do_idle_check keep_book
do_event (add_cmd who section sync) book =
    let book' = insert who section book in
    some (book', if sync then do_check_section who book' section else [])
do_event (del_cmd who) book = elim (lookup who book) [
  | none ↦ some (book, [])
  | some section ↦ some (delete who book, do_clean_section who section)
]
do_event sync_cmd book = keep_book book (do_idle_check book)
do_event idle_tick book = keep_book book (do_idle_check book)

unfoldable pub then_also : List Action → Option (Book × List Action) → Option (Book × List Action)
then_also done none = none
then_also done (some (book, actions)) = some (book, done ++ actions)

-- The loop of Start over a sequence of commands and ticks.
unfoldable pub start_tc : List TcEvent → Book → Option (Book × List Action)
unfolding do_event then_also
start_tc [] book = some (book, [])
start_tc (event ∷ events) book = elim (do_event event book) [
  | none ↦ none
  | some (book', actions) ↦ then_also actions (start_tc events book')
]
