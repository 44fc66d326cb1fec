-- ===== src/MessageQueue/Destroy.antt =====
-- `mymsgdestroy` of Lab23/main.c and Lab24/main.c: the messages are freed from the head on.
pub mod Freed
use os_posix.Prelude.{ℕ, zero, suc, Bool, true, false, Option, none, some, ◌==◌, if◌then◌else◌}
use os_posix.MessageQueue.Cells.{Ptr, null, Message, Heap, write, load}

-- `free` of a message, after its `next` was read.
abbrev pub free_message : Heap → Ptr → Heap
free_message h p = write h p none

-- The loop, with fuel; `none` is a fault, or no fuel.
unfoldable pub free_from : ℕ → Heap → Ptr → Option Heap
free_from zero h p = if p == null then some h else none
free_from (suc fuel) h p =
    if p == null
    then some h
    else elim (load h p) [ none ↦ none | some m ↦ free_from fuel (free_message h p) m.next ]
