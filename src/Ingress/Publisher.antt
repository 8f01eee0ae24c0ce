-- ===== src/Ingress/Publisher.antt =====
-- ingress/http_connector.py and ingress/smpp_connector.py: the publisher workers, which are the same in both. The
-- workers share the internal queue, the event `stop` and the queue that they publish to; a step is what one of
-- them does between two awaits, and the other tasks put messages and set `stop` in between. The bound of the
-- queue is in Ingress.Http and Ingress.Smpp.
pub mod Drain
pub mod Ends
use wholesale_project.Base.{
  ℕ, zero, suc, Bool, true, false, not, ◌||◌, List, [], ◌∷◌, ◌++◌, ◌≡◌, if◌then◌else◌,
}
use wholesale_project.Common.Message.{Message}
use wholesale_project.Smpp.Server.{is_empty}

-- Where a worker is: at the wait for a first message, at `publish`, behind the loop, or ended by an exception of
-- `publish`, with the batch that it held.
pub data Worker : Type 0 where
  waiting ended : Worker
  publishing failed : List Message → Worker

-- `put` and `late` are the messages that were put before and behind the stop, `published` those of every
-- `publish` that returned.
pub record Publishers : Type 0 where
  pub queue : List Message
  pub stop : Bool
  pub workers : List Worker
  pub put : List Message
  pub late : List Message
  pub published : List Message

-- The loop that fills a batch up to ten, with room for as many more.
unfoldable pub fill : ℕ → List Message → List Message → List Message × List Message
fill zero batch queue = (batch, queue)
fill (suc room) batch [] = (batch, [])
fill (suc room) batch (m ∷ queue) = fill room (batch ++ (m ∷ [])) queue

unfoldable pub next_batch : Message → List Message → List Message × List Message
next_batch first queue = fill 9 (first ∷ []) queue

-- `while not stop.is_set() or not queue.empty()`
unfoldable pub again : Bool → List Message → Worker
again stop queue = if not stop || not (is_empty queue) then Worker.waiting else Worker.ended

pub data Step : Publishers → Publishers → Type 0 where
  puts :
      {w : Publishers} (m : Message)
      → w.stop ≡ false
      → Step w (record w { queue = w.queue ++ (m ∷ []); put = w.put ++ (m ∷ []) })
  puts_late :
      {w : Publishers} (m : Message)
      → w.stop ≡ true
      → Step w (record w { queue = w.queue ++ (m ∷ []); late = w.late ++ (m ∷ []) })
  stops : {w : Publishers} → Step w (record w { stop = true })
  takes :
      {w : Publishers} (before behind : List Worker) (first : Message) (rest : List Message)
      → w.workers ≡ before ++ (Worker.waiting ∷ behind)
      → w.queue ≡ first ∷ rest
      → Step w (record w {
        queue = (next_batch first rest).1;
        workers = before ++ (Worker.publishing (next_batch first rest).0 ∷ behind);
      })
  times_out :
      {w : Publishers} (before behind : List Worker)
      → w.workers ≡ before ++ (Worker.waiting ∷ behind)
      → Step w (record w { workers = before ++ (again w.stop w.queue ∷ behind) })
  publishes :
      {w : Publishers} (before behind : List Worker) (batch : List Message)
      → w.workers ≡ before ++ (Worker.publishing batch ∷ behind)
      → Step w (record w {
        workers = before ++ (again w.stop w.queue ∷ behind);
        published = w.published ++ batch;
      })
  fails :
      {w : Publishers} (before behind : List Worker) (batch : List Message)
      → w.workers ≡ before ++ (Worker.publishing batch ∷ behind)
      → Step w (record w { workers = before ++ (Worker.failed batch ∷ behind) })

abbrev pub waiting_workers : ℕ → List Worker
waiting_workers zero = []
waiting_workers (suc n) = Worker.waiting ∷ waiting_workers n

-- From the start of `n` workers on.
pub data Reach (n : ℕ) : Publishers → Type 0 where
  start : Reach n (record {
    queue = [];
    stop = false;
    workers = waiting_workers n;
    put = [];
    late = [];
    published = [];
  })
  later : {v w : Publishers} → Reach n v → Step v w → Reach n w
