-- ===== src/System/Steps.antt =====
-- Whatever the services do, no task is lost and none is doubled.
use triggerhook.Base.{
  ℕ, ◌<◌, String, List, [], ◌∷◌, Option, none, some, Bool-cases, inl, inr, ltb, ◌≡◌, refl, ap,
  arith,
}
use triggerhook.Domain.{Task}
use triggerhook.TaskManager.Operations.{TaskManager}
use triggerhook.Preloader.Shares.{count, count-append}
use triggerhook.Waiting.Loop.Fate.{AllOther}
use triggerhook.Sender.Handles.{Handles}
use triggerhook.Sender.Lending.{Use, use_handle}
use triggerhook.Sender.Buffer.{Buffer, turns, enters, leaves, Case}
use triggerhook.Sender.Buffer
use triggerhook.Sender.Batcher.{value}
use triggerhook.Sender.Pipeline.{Pipeline}
use triggerhook.Sender.Pipeline
use triggerhook.Sender.Placed.{Accounted}
use triggerhook.Sender.Carried.{act-Accounted}
use triggerhook.Sender.Received.{brings, act-received}
use triggerhook.System.{
  System, consume, consume_due, consume_rolled_back, rolled_back_to, used, use_lent, buffered, sent,
  handed_on,
}
use triggerhook.System.Places.{has_id}
use triggerhook.System.Lent.{consume-Consumed, use_handle-Used}
use triggerhook.System.Buffered.{in_buffer-turns, in_buffer-leaves, rolled_back_to-Taken}
use triggerhook.System.Whole.{Anything, IsWhole, Kept}
use triggerhook.System.Channels.{same-Kept}

module _ {R C : Type 0} (m : TaskManager R C) (max : ℕ) (id : String) where
  pub consume_due-Kept :
      (l : List Task) (s : System R)
      → s.ready ≡ l
      → IsWhole m max s
      → AllOther id s.canceled_tasks
      → Kept m max id s (consume_due l s)
  unfolding consume_due consume
  consume_due-Kept [] s q w o = same-Kept m max id s w o
  consume_due-Kept (t ∷ rest) s q w o =
      let c = consume-Consumed t s.handles w.pooled in
      record {
        whole = record { valid = w.valid; pooled = c.pooled; buffer = w.buffer; sender = w.sender };
        spared = o;
        moved =
            let a = ap (count (has_id id)) q in
            let b = count-append (has_id id) (t ∷ []) rest in
            let d = c.lent_more (has_id id) in omega (arith, a, b, d);
      }

  pub consume_rolled_back-Kept :
      (h : Option Task) (n : Option Buffer) (s : System R)
      → s.buffer.out_chan.held ≡ h
      → Buffer.step leaves s.buffer ≡ n
      → IsWhole m max s
      → AllOther id s.canceled_tasks
      → Kept m max id s (consume_rolled_back h n s)
  unfolding consume_rolled_back consume
  consume_rolled_back-Kept none n s q e w o = same-Kept m max id s w o
  consume_rolled_back-Kept (some t) none s q e w o = same-Kept m max id s w o
  consume_rolled_back-Kept (some t) (some b) s q e w o =
      let c = consume-Consumed t s.handles w.pooled in
      record {
        whole = record {
          valid = w.valid;
          pooled = c.pooled;
          buffer = Buffer.after leaves w.buffer e;
          sender = w.sender;
        };
        spared = o;
        moved =
            let a = in_buffer-leaves (has_id id) t w.buffer q e in
            let d = c.lent_more (has_id id) in omega (arith, a, d);
      }

  used-Kept :
      (h : ℕ) (u : Use) (n : Option Buffer) (s : System R)
      → h < s.handles.next
      → let before : Handles = record (s.handles) { confirmed = []; rolled_back = [] } in
        let o = use_handle h u before in
        rolled_back_to o.rolled_back s.buffer ≡ n
        → IsWhole m max s
        → AllOther id s.canceled_tasks
        → Kept m max id s (used o n s)
  unfolding used
  used-Kept h u none s l q w o = same-Kept m max id s w o
  used-Kept h u (some b) s l q w o =
      let before : Handles = record (s.handles) { confirmed = []; rolled_back = [] } in
      let x = use_handle-Used h u before l w.pooled in
      let t = rolled_back_to-Taken (use_handle h u before).rolled_back w.buffer q in
      record {
        whole = record {
          valid = w.valid;
          pooled = x.pooled;
          buffer = t.reached;
          sender = w.sender;
        };
        spared = o;
        moved =
            let a = x.moved (has_id id) in
            let b = t.more (has_id id) in
            let c = count-append (has_id id) s.to_confirm (use_handle h u before).confirmed in
            omega (arith, a, b, c);
      }

  pub use_lent-Kept :
      (h : ℕ) (u : Use) (s : System R)
      → IsWhole m max s
      → AllOther id s.canceled_tasks
      → Kept m max id s (use_lent h u s)
  unfolding use_lent
  use_lent-Kept h u s w o = elim (Bool-cases (ltb h s.handles.next)) [
    | inr b ↦ rw b (same-Kept m max id s w o)
    | inl b ↦ rw b (used-Kept h u _ s (ground arith) refl w o)
  ]

  pub buffered-Kept :
      (c : Case) (n : Option Buffer) (s : System R)
      → Buffer.step (turns c) s.buffer ≡ n
      → IsWhole m max s
      → AllOther id s.canceled_tasks
      → Kept m max id s (buffered n s)
  unfolding buffered
  buffered-Kept c none s q w o = same-Kept m max id s w o
  buffered-Kept c (some b) s q w o = record {
    whole = record {
      valid = w.valid;
      pooled = w.pooled;
      buffer = Buffer.after (turns c) w.buffer q;
      sender = w.sender;
    };
    spared = o;
    moved = let a = in_buffer-turns (has_id id) c w.buffer q in omega (arith, a);
  }

  acted :
      (a : Pipeline.Act) (p p' : Pipeline R)
      → Pipeline.act m max a p ≡ some p'
      → Accounted m Anything max p
      → Accounted m Anything max p'
  acted a p p' q h = act-Accounted m Anything (λ batch bs w n. tt) a p q h

  pub sent-Kept :
      (a : Pipeline.Act) (n : Option (Pipeline R)) (s : System R)
      → brings a ≡ []
      → Pipeline.act m max a s.sender ≡ n
      → IsWhole m max s
      → AllOther id s.canceled_tasks
      → Kept m max id s (sent n s)
  unfolding sent
  sent-Kept a none s e q w o = same-Kept m max id s w o
  sent-Kept a (some p) s e q w o = record {
    whole = record {
      valid = w.valid;
      pooled = w.pooled;
      buffer = w.buffer;
      sender = acted a s.sender p q w.sender;
    };
    spared = o;
    moved =
        let f = has_id id in
        let x = ap (count f) (act-received m max a s.sender q) in
        let y = count-append f s.sender.batcher.received (brings a) in
        let z = ap (count f) e in omega (arith, x, y, z);
  }

  pub handed_on-Kept :
      (t : Task) (rest : List Task) (n : Option (Pipeline R)) (s : System R)
      → s.to_confirm ≡ t ∷ rest
      → Pipeline.act m max (Pipeline.batches (value t)) s.sender ≡ n
      → IsWhole m max s
      → AllOther id s.canceled_tasks
      → Kept m max id s (handed_on n rest s)
  unfolding handed_on
  handed_on-Kept t rest none s e q w o = same-Kept m max id s w o
  handed_on-Kept t rest (some p) s e q w o = record {
    whole = record {
      valid = w.valid;
      pooled = w.pooled;
      buffer = w.buffer;
      sender = acted (Pipeline.batches (value t)) s.sender p q w.sender;
    };
    spared = o;
    moved =
        let f = has_id id in
        let x = ap (count f) (act-received m max (Pipeline.batches (value t)) s.sender q) in
        let y = count-append f s.sender.batcher.received (t ∷ []) in
        let z = ap (count f) e in let v = count-append f (t ∷ []) rest in omega (arith, x, y, z, v);
  }
