-- ===== src/TcMan/Book.antt =====
-- pkg/agent/server/tcman.go: the book of sections over a sequence of commands and ticks.
use sdnagent.Base.{
  Bool, true, false, ◌&&◌, ◌||◌, not, Option, none, some, List, [], ◌∷◌, Str, str_eq,
  str_eq_instance, lookup, insert, delete, ◌++◌, eq_of_str_eq, lookup-insert, lookup-delete,
  if◌then◌else◌, ◌≡◌, refl, sym, ◌∙◌, ap, arith, Option-cases, inl, inr,
}
use sdnagent.TcMan.Defs.{
  do_clean_section, do_check_section, check_guests, check_host_section, Section, Book,
  host_local_who, Action, TcEvent, add_cmd, del_cmd, sync_cmd, idle_tick, do_idle_check, keep_book,
  do_event, then_also, start_tc,
}

abbrev pub is_none : {A : Type 0} → Option A → Bool
is_none none = true
is_none (some a) = false

abbrev pub has_host : Book → Bool
has_host book = not (is_none (lookup host_local_who book))

-- A check of everything is due while the host has no section; `has` is whether it has one at first.
abbrev pub misses_host : Bool → List TcEvent → Bool
misses_host has [] = false
misses_host has (add_cmd who section sync ∷ events) =
    misses_host (str_eq who host_local_who || has) events
misses_host has (del_cmd who ∷ events) = misses_host (not (str_eq who host_local_who) && has) events
misses_host has (sync_cmd ∷ events) = not has || misses_host has events
misses_host has (idle_tick ∷ events) = not has || misses_host has events

-- The section that was last told of `who`, if `last` is what there was before.
abbrev pub last_told : Str → Option Section → List TcEvent → Option Section
last_told who last [] = last
last_told who last (add_cmd who' section sync ∷ events) =
    last_told who (if str_eq who' who then some section else last) events
last_told who last (del_cmd who' ∷ events) =
    last_told who (if str_eq who' who then none else last) events
last_told who last (sync_cmd ∷ events) = last_told who last events
last_told who last (idle_tick ∷ events) = last_told who last events

-- A book that looks the same as after the events has what the loop leaves.
abbrev pub Agrees : Option (Book × List Action) → Bool → (Str → Option Section) → Type 0
Agrees none missing told = missing ≡ true
Agrees (some (book, actions)) missing told =
    (missing ≡ false) × ((who : Str) → lookup who book ≡ told who)

then_also-Agrees :
    (actions : List Action) (o : Option (Book × List Action)) (missing : Bool)
    (told : Str → Option Section)
    → Agrees o missing told
    → Agrees (then_also actions o) missing told
unfolding then_also
then_also-Agrees actions none missing told h = h
then_also-Agrees actions (some (book, rest)) missing told h = h

Agrees-same :
    (o : Option (Book × List Action)) (missing missing' : Bool) (told told' : Str → Option Section)
    → missing ≡ missing'
    → ((who : Str) → told who ≡ told' who)
    → Agrees o missing told
    → Agrees o missing' told'
Agrees-same none missing missing' told told' e same h = sym e ∙ h
Agrees-same (some (book, actions)) missing missing' told told' e same (h, k) =
    (sym e ∙ h, λ who. k who ∙ same who)

start_tc_step :
    (event : TcEvent) (events : List TcEvent) (book book' : Book) (actions : List Action)
    → do_event event book ≡ some (book', actions)
    → start_tc (event ∷ events) book ≡ then_also actions (start_tc events book')
unfolding start_tc
start_tc_step event events book book' actions h = rw (start_tc, h) refl

start_tc_fails :
    (event : TcEvent) (events : List TcEvent) (book : Book)
    → do_event event book ≡ none
    → start_tc (event ∷ events) book ≡ none
unfolding start_tc
start_tc_fails event events book h = rw (start_tc, h) refl

do_event_absent :
    (who : Str) (book : Book)
    → lookup who book ≡ none
    → do_event (del_cmd who) book ≡ some (book, [])
unfolding do_event
do_event_absent who book h = rw (do_event, h) refl

do_event_deleted :
    (who : Str) (book : Book) (section : Section)
    → lookup who book ≡ some section
    → do_event (del_cmd who) book ≡ some (delete who book, do_clean_section who section)
unfolding do_event
do_event_deleted who book section h = rw (do_event, h) refl

do_idle_check_fails : (book : Book) → lookup host_local_who book ≡ none → do_idle_check book ≡ none
unfolding do_idle_check
do_idle_check_fails book h = rw (do_idle_check, h) refl

do_idle_check_runs :
    (book : Book) (section : Section)
    → lookup host_local_who book ≡ some section
    → do_idle_check book ≡ some (check_guests book ++ check_host_section book section)
unfolding do_idle_check
do_idle_check_runs book section h = rw (do_idle_check, h) refl

-- What is told of an address after a deletion that finds nothing.
absent_told :
    (who who' : Str) (book : Book)
    → lookup who book ≡ none
    → lookup who' book ≡ (if str_eq who who' then none else lookup who' book)
absent_told who who' book h = ground (arith, h, eq_of_str_eq who who')

has_host_inserted :
    (who : Str) (section : Section) (book : Book)
    → has_host (insert who section book) ≡ (str_eq who host_local_who || has_host book)
has_host_inserted who section book = ground (arith, lookup-insert who host_local_who section book)

has_host_deleted :
    (who : Str) (book : Book)
    → has_host (delete who book) ≡ (not (str_eq who host_local_who) && has_host book)
has_host_deleted who book = ground (arith, lookup-delete who host_local_who book)

has_host_absent :
    (who : Str) (book : Book)
    → lookup who book ≡ none
    → has_host book ≡ (not (str_eq who host_local_who) && has_host book)
has_host_absent who book h = ground (arith, absent_told who host_local_who book h)

-- A check of everything panics if the host has no section, and leaves the book as it is otherwise.
idle_check-Agrees :
    (event : TcEvent) (events : List TcEvent) (book : Book) (told : Str → Option Section)
    → do_event event book ≡ keep_book book (do_idle_check book)
    → Agrees (start_tc events book) (misses_host (has_host book) events) told
    → Agrees
        (start_tc (event ∷ events) book)
        (not (has_host book) || misses_host (has_host book) events)
        told
unfolding keep_book
idle_check-Agrees event events book told idle h = elim (Option-cases (lookup host_local_who book)) [
  | inl absent ↦
      rw
        (
          start_tc_fails event events book
              (idle ∙ ap (keep_book book) (do_idle_check_fails book absent)),
          absent,
        )
        refl
  | inr (section, known) ↦
      let actions = check_guests book ++ check_host_section book section in
      let has : has_host book ≡ true = ground (arith, known) in
      rw
        (start_tc_step event events book book actions
          (idle ∙ ap (keep_book book) (do_idle_check_runs book section known)))
        (then_also-Agrees actions (start_tc events book)
          (not (has_host book) || misses_host (has_host book) events) told
          (Agrees-same (start_tc events book) (misses_host (has_host book) events)
            (not (has_host book) || misses_host (has_host book) events) told told
            (sym (ap (λ b. not b || misses_host (has_host book) events) has)) (λ who. refl) h))
]

start_tc_nil : (book : Book) → Agrees (start_tc [] book) false (λ who. lookup who book)
unfolding start_tc
start_tc_nil book = (refl, λ who. refl)

do_event_added :
    (who : Str) (section : Section) (sync : Bool) (book : Book)
    → do_event (add_cmd who section sync) book
      ≡ some (
        insert who section book,
        if sync then do_check_section who (insert who section book) section else [],
      )
unfolding do_event
do_event_added who section sync book = refl

do_event_sync : (book : Book) → do_event sync_cmd book ≡ keep_book book (do_idle_check book)
unfolding do_event
do_event_sync book = refl

do_event_tick : (book : Book) → do_event idle_tick book ≡ keep_book book (do_idle_check book)
unfolding do_event
do_event_tick book = refl

after_deletion :
    (who : Str) (events : List TcEvent) (book book' : Book) (actions : List Action)
    → has_host book' ≡ (not (str_eq who host_local_who) && has_host book)
    → ((who' : Str) → lookup who' book' ≡ (if str_eq who who' then none else lookup who' book))
    → Agrees
        (start_tc events book')
        (misses_host (has_host book') events)
        (λ who'. last_told who' (lookup who' book') events)
    → Agrees
        (then_also actions (start_tc events book'))
        (misses_host (not (str_eq who host_local_who) && has_host book) events)
        (λ who'. last_told who' (if str_eq who who' then none else lookup who' book) events)
after_deletion who events book book' actions host same h =
    let missing = misses_host (not (str_eq who host_local_who) && has_host book) events in
    let told =
      λ (who' : Str). last_told who' (if str_eq who who' then none else lookup who' book) events in
    then_also-Agrees actions (start_tc events book') missing told (
      Agrees-same (start_tc events book') (misses_host (has_host book') events) missing
        (λ who'. last_told who' (lookup who' book') events) told
        (ap (λ b. misses_host b events) host)
        (λ who'. ap (λ l. last_told who' l events) (same who')) h)

-- The manager panics exactly if a check of everything is due while the host has no section; if it
-- does not, its book has for each guest and for the host the section that was last told, and none
-- for what was deleted since.
pub start_tc-Agrees :
    (events : List TcEvent) (book : Book)
    → Agrees
        (start_tc events book)
        (misses_host (has_host book) events)
        (λ who. last_told who (lookup who book) events)
start_tc-Agrees [] book = start_tc_nil book
start_tc-Agrees (add_cmd who section sync ∷ events) book =
    let book' = insert who section book in
    let actions = if sync then do_check_section who book' section else [] in
    rw
      (start_tc_step (add_cmd who section sync) events book book' actions
        (do_event_added who section sync book))
      (then_also-Agrees actions (start_tc events book')
        (misses_host (str_eq who host_local_who || has_host book) events)
        (λ who'. last_told who' (if str_eq who who' then some section else lookup who' book) events)
        (Agrees-same (start_tc events book') (misses_host (has_host book') events)
          (misses_host (str_eq who host_local_who || has_host book) events)
          (λ who'. last_told who' (lookup who' book') events)
          (λ who'.
            last_told who' (if str_eq who who' then some section else lookup who' book) events)
          (ap (λ b. misses_host b events) (has_host_inserted who section book))
          (λ who'. ap (λ l. last_told who' l events) (lookup-insert who who' section book))
          (start_tc-Agrees events book')))
start_tc-Agrees (del_cmd who ∷ events) book = elim (Option-cases (lookup who book)) [
  | inl absent ↦
      rw (start_tc_step (del_cmd who) events book book [] (do_event_absent who book absent)) (
        after_deletion who events book book [] (has_host_absent who book absent)
          (λ who'. absent_told who who' book absent) (start_tc-Agrees events book))
  | inr (section, known) ↦
      let actions = do_clean_section who section in
      rw
        (start_tc_step (del_cmd who) events book (delete who book) actions
          (do_event_deleted who book section known))
        (after_deletion who events book (delete who book) actions (has_host_deleted who book)
          (λ who'. lookup-delete who who' book) (start_tc-Agrees events (delete who book)))
]
start_tc-Agrees (sync_cmd ∷ events) book =
    idle_check-Agrees sync_cmd events book (λ who. last_told who (lookup who book) events)
      (do_event_sync book) (start_tc-Agrees events book)
start_tc-Agrees (idle_tick ∷ events) book =
    idle_check-Agrees idle_tick events book (λ who. last_told who (lookup who book) events)
      (do_event_tick book) (start_tc-Agrees events book)
