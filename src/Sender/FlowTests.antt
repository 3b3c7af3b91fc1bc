-- ===== src/Sender/FlowTests.antt =====
-- The buffer with one task, and a worker with a batch, over the table of one row.
use triggerhook.Base.{[], ◌∷◌, ◌++◌, false, none, some, ◌≡◌, refl, pos}
use triggerhook.TaskManager.OneRow.{manager, world, late}
use triggerhook.Sender.Buffer.{
  running, returned, Buffer, turns, receives, enters, step, turn, turn_empty, first_received,
  receive, receive_from, enter, Reach, at_start, after,
}
use triggerhook.Sender.Fifo.{held_in, waiting_in, buffer-Kept}
use triggerhook.Sender.Confirmation.{confirmation}
use triggerhook.TaskManager.Operations.{try_delete}
use triggerhook.TaskManager.Laws.{without}
use triggerhook.Sender.Confirmed.{Confirmed}

-- The task has entered, and stands in the list.
abbrev one_listed : Buffer
one_listed = record {
  in_chan = some (record { held = none; closed = false });
  out_chan = record { held = none; closed = false };
  list = late ∷ [];
  loop = running;
  entered = late ∷ [];
  left = [];
}

one_listed-Reach : Reach one_listed
unfolding step turn turn_empty first_received receive receive_from enter
one_listed-Reach = after (turns receives) (after (enters late) at_start refl) refl

buffer-Kept_example :
    (one_listed.left
        ++ (held_in one_listed.out_chan.held ++ (one_listed.list ++ waiting_in one_listed.in_chan))
      ≡ one_listed.entered)
    × (one_listed.loop ≡ returned
        → one_listed.left ++ held_in one_listed.out_chan.held ≡ one_listed.entered)
buffer-Kept_example = buffer-Kept one_listed-Reach

emptied : (confirmation (manager (pos 3)) ((late ∷ []) ∷ []) (world (late ∷ []))).repo.row ≡ []
unfolding confirmation try_delete without
emptied = refl
