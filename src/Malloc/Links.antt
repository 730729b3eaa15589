-- ===== src/Malloc/Links.antt =====
-- The two intrusive lists of uspace/malloc.c: the links of `elt`, and the functions that insert
-- and remove a node. The fields of the `elt`s are kept as one function for each field, from a
-- block's address to the field's value, so that a write to a field is an update of its function.
-- Each list stands in three globals, `Ends`. The source writes each function's code twice, once
-- for the globals of each list; here it is written once and `Malloc.Arena` chooses the globals.
use memory_management.Base.{
  ℕ, zero, suc, ◌+◌, ◌-◌, Bool, Option, none, some, ◌==◌, if◌then◌else◌, update,
}

abbrev pub Ptr : Type 0
Ptr = ℕ

abbrev pub null : Ptr
null = 0

-- The fields `prev` and `next` of every `elt`.
pub record Links : Type 0 where
  pub prev : Ptr → Ptr
  pub next : Ptr → Ptr

-- `free_head`, `free_tail` and `free_list_size`, or those of the allocated blocks.
pub record Ends : Type 0 where
  pub head : Ptr
  pub tail : Ptr
  pub count : ℕ

abbrev pub set_prev : Ptr → Ptr → Links → Links
set_prev p q l = record l { prev = update l.prev p q }

abbrev pub set_next : Ptr → Ptr → Links → Links
set_next p q l = record l { next = update l.next p q }

-- The list part of `append_list`: the node goes to the end.
unfoldable pub link_last : Ptr → Links → Ends → Links × Ends
link_last node l e =
    let l0 = set_next node null l in
    if e.head == null
    then (set_prev node null l0, record e { head = node; tail = node; count = e.count + 1 })
    else (
      set_prev node e.tail (set_next e.tail node l0),
      record e { tail = node; count = e.count + 1 },
    )

-- The `while` loop of `append_list_ordered` and the code behind it. `none` means that the fuel
-- ran out.
unfoldable pub insert_loop :
    (between : Ptr → Ptr → Bool) → ℕ → (node p1 p2 : Ptr) → Links → Ends → Option (Links × Ends)
insert_loop between zero node p1 p2 l e = none
insert_loop between (suc fuel) node p1 p2 l e =
    let next_round = insert_loop between fuel node p2 (l.next p2) l e in
    if p2 == null
    then some (set_next node null (set_prev node p1 (set_next p1 node l)), record e { tail = node })
    else if between p1 p2
    then some (set_prev p2 node (set_next p1 node (set_next node p2 (set_prev node p1 l))), e)
    else next_round

-- The list part of `append_list_ordered`: `first` is its test against the head, `between` the
-- test of its loop. The loop makes at most one round for each node of the list.
unfoldable pub link_ordered :
    (first : Ptr → Bool) → (between : Ptr → Ptr → Bool) → Ptr → Links → Ends → Option (Links × Ends)
unfolding insert_loop
link_ordered first between node l e =
    let e1 : Ends = record e { count = e.count + 1 } in
    if e.head == null
    then some (set_next node null (set_prev node null l), record e1 { head = node; tail = node })
    else if first e.head
    then some (
      set_prev e.head node (set_next node e.head (set_prev node null l)),
      record e1 { head = node },
    )
    else insert_loop between (e.count + 1) node e.head (l.next e.head) l e1

-- `remove_list`
unfoldable pub unlink : Ptr → Links → Links
unlink node l =
    let before = l.prev node in
    let after = l.next node in
    let l1 : Links = if before == null then l else set_next before after l in
    if after == null then l1 else set_prev after before l1

unfoldable pub unlink_ends : Ptr → Links → Ends → Ends
unlink_ends node l e = record {
  head = if node == e.head then l.next node else e.head;
  tail = if node == e.tail then l.prev node else e.tail;
  count = e.count - 1;
}
