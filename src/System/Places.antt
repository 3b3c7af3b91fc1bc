-- ===== src/System/Places.antt =====
-- Where the tasks of an id are.
use triggerhook.Base.{
  ℕ, zero, suc, ◌+◌, String, str_eq, List, [], ◌∷◌, ◌++◌, Bool, Option, none, some, take, drop,
  if◌then◌else◌, ◌≡◌, arith,
}
use triggerhook.Domain.{Task}
use triggerhook.Waiting.TaskHeap.Valid.{tasks}
use triggerhook.Waiting.Loop.Fate.{AllOther}
use triggerhook.Preloader.Shares.{count, count-append}
use triggerhook.Sender.Handles.{TaskToSend}
use triggerhook.Sender.Buffer.{Buffer}
use triggerhook.Sender.Fifo.{held_in, waiting_in}
use triggerhook.System.{System, left_in}

abbrev pub has_id : String → Task → Bool
has_id id t = str_eq t.id id

abbrev pub in_view : Option Task → ℕ
in_view none = 0
in_view (some t) = 1

-- A handle that is not processed holds its task.
abbrev pub in_handle : (Task → Bool) → TaskToSend → ℕ
in_handle f tts = if tts.is_processed then 0 else if f tts.task then 1 else 0

-- The tasks held by the first `n` handles.
abbrev pub lent : (Task → Bool) → (ℕ → TaskToSend) → ℕ → ℕ
lent f store zero = 0
lent f store (suc n) = in_handle f (store n) + lent f store n

abbrev pub in_buffer : (Task → Bool) → Buffer → ℕ
in_buffer f b =
    count f (held_in b.out_chan.held) + (count f b.list + count f (waiting_in b.in_chan))

-- The tasks of an id between the preloader and the sender.
abbrev pub on_the_way : {R : Type 0} → String → System R → ℕ
on_the_way id s =
    count (has_id id) s.preloaded_tasks
    + in_view (tasks s.list id)
    + count (has_id id) s.ready
    + lent (has_id id) s.handles.store s.handles.next
    + in_buffer (has_id id) s.buffer
    + count (has_id id) s.to_confirm

-- What a round that has received a value leaves in its channel.
pub count-left_in :
    (f : Task → Bool) (limit k : ℕ) (t : Task) (rest : List Task)
    → count f (t ∷ rest)
      ≡ count f (t ∷ take limit (take k rest)) + count f (left_in limit k (t ∷ rest))
count-left_in f limit k t rest =
    let a = count-split f k rest in
    let b = count-split f limit (take k rest) in
    let c = count-append f (drop limit (take k rest)) (drop k rest) in
    let d = count-append f (t ∷ []) rest in
    let e = count-append f (t ∷ []) (take limit (take k rest)) in omega (arith, a, b, c, d, e)
  where
    count-split :
        (f : Task → Bool) (n : ℕ) (ts : List Task)
        → count f ts ≡ count f (take n ts) + count f (drop n ts)
    count-split f zero ts = omega arith
    count-split f (suc n) [] = omega arith
    count-split f (suc n) (t ∷ ts) =
        let a = count-append f (t ∷ []) ts in
        let b = count-append f (t ∷ []) (take n ts) in omega (arith, a, b, count-split f n ts)

AllOther-take :
    (id : String) (n : ℕ) (ids : List String) → AllOther id ids → AllOther id (take n ids)
AllOther-take id zero ids o = tt
AllOther-take id (suc n) [] o = tt
AllOther-take id (suc n) (j ∷ ids) (ne, o) = (ne, AllOther-take id n ids o)

AllOther-drop :
    (id : String) (n : ℕ) (ids : List String) → AllOther id ids → AllOther id (drop n ids)
AllOther-drop id zero ids o = o
AllOther-drop id (suc n) [] o = tt
AllOther-drop id (suc n) (j ∷ ids) (ne, o) = AllOther-drop id n ids o

pub AllOther-append :
    (id : String) (xs ys : List String) → AllOther id xs → AllOther id ys → AllOther id (xs ++ ys)
AllOther-append id [] ys o p = p
AllOther-append id (x ∷ xs) ys (ne, o) p = (ne, AllOther-append id xs ys o p)

pub AllOther-received :
    (id : String) (limit k : ℕ) (ids : List String)
    → AllOther id ids
    → AllOther id (take limit (take k ids))
AllOther-received id limit k ids o = AllOther-take id limit (take k ids) (AllOther-take id k ids o)

pub AllOther-left_in :
    (id : String) (limit k : ℕ) (ids : List String)
    → AllOther id ids
    → AllOther id (left_in limit k ids)
AllOther-left_in id limit k [] o = tt
AllOther-left_in id limit k (j ∷ ids) (ne, o) =
    AllOther-append id (drop limit (take k ids)) (drop k ids)
      (AllOther-drop id limit (take k ids) (AllOther-take id k ids o)) (AllOther-drop id k ids o)
