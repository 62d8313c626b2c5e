-- ===== src/A2b/Output.antt =====
-- audio/a2b/ContinuousOutput.cpp and .h: the queues of the clients and the rounds of the thread.
-- Each function is one passage under the lock; what the callbacks answer is an argument.
use android_device_brcm_rpi.Common.{
  ℕ, ◌+◌, ◌-◌, ◌*◌, ◌/◌, ◌%◌, min, Bool, true, false, not, ◌||◌, ◌==◌, Option, none, some, List, [],
  ◌∷◌, if◌then◌else◌, ℤ, pos, negsuc, length, take, drop,
}

-- The samples of a queue: `kQueueFrames * 2`. A period: `kPeriodFrames * 2`.
abbrev pub capacity : ℕ
capacity = 8192

abbrev pub period_samples : ℕ
period_samples = 480

-- `samples` as the function of the index that the vector is.
pub record Queue : Type 0 where
  pub samples : ℕ → ℤ
  pub read : ℕ
  pub count : ℕ
  pub generation : ℕ
  pub started : Bool
  pub underrunning : Bool

abbrev pub new_queue : Queue
new_queue = record {
  samples = λ i. pos 0;
  read = 0;
  count = 0;
  generation = 0;
  started = false;
  underrunning = false;
}

-- The fields of Statistics that are counted as it goes.
pub record Statistics : Type 0 where
  pub producer_waits : ℕ
  pub underruns : ℕ
  pub starved_frames : ℕ
  pub canceled_frames : ℕ

-- `clients` is in the order of the identifiers, which attach gives in rising order.
pub record Mixer : Type 0 where
  pub statistics : Statistics
  pub clients : List (ℕ × Queue)
  pub next_client : ℕ
  pub running : Bool
  pub healthy : Bool
  pub frames_written : ℕ
  pub write_errors : ℕ

abbrev pub find : ℕ → List (ℕ × Queue) → Option Queue
find client [] = none
find client ((id, q) ∷ rest) = if id == client then some q else find client rest

abbrev pub put : ℕ → Queue → List (ℕ × Queue) → List (ℕ × Queue)
put client new [] = []
put client new ((id, q) ∷ rest) =
    if id == client then (id, new) ∷ rest else (id, q) ∷ put client new rest

abbrev pub erase : ℕ → List (ℕ × Queue) → List (ℕ × Queue)
erase client [] = []
erase client ((id, q) ∷ rest) = if id == client then rest else (id, q) ∷ erase client rest

abbrev pub snoc : List (ℕ × Queue) → ℕ × Queue → List (ℕ × Queue)
snoc [] x = x ∷ []
snoc (y ∷ ys) x = y ∷ snoc ys x

abbrev cancel : ℕ → Statistics → Statistics
cancel frames st = record st { canceled_frames = st.canceled_frames + frames }

unfoldable pub attach : Mixer → ℕ × Mixer
attach m = (
  m.next_client,
  record m { next_client = m.next_client + 1; clients = snoc m.clients (m.next_client, new_queue) },
)

abbrev pub detach_found : ℕ → Mixer → Option Queue → Mixer
detach_found client m none = m
detach_found client m (some q) = record m {
  statistics = cancel (q.count / 2) m.statistics;
  clients = erase client m.clients;
}

unfoldable pub detach : ℕ → Mixer → Mixer
detach client m = detach_found client m (find client m.clients)

abbrev pub flushed : Queue → Queue
flushed q = record q {
  count = 0;
  generation = q.generation + 1;
  started = false;
  underrunning = false;
}

abbrev pub clear_found : ℕ → Mixer → Option Queue → Mixer
clear_found client m none = m
clear_found client m (some q) = record m {
  statistics = cancel (q.count / 2) m.statistics;
  clients = put client (flushed q) m.clients;
}

unfoldable pub clear : ℕ → Mixer → Mixer
clear client m = clear_found client m (find client m.clients)

-- `int32_t(sample) * 65536`.
abbrev pub scale : ℤ → ℤ
scale (pos n) = pos (n * 65536)
scale (negsuc n) = negsuc (n * 65536 + 65535)

-- The vector with `v` at `i`.
abbrev pub update : (ℕ → ℤ) → ℕ → ℤ → ℕ → ℤ
update f i v j = if j == i then v else f j

-- The copying loop, from the index `start` on, which wraps.
unfoldable pub put_all : (ℕ → ℤ) → ℕ → List ℤ → ℕ → ℤ
put_all f start [] = f
put_all f start (x ∷ xs) = put_all (update f (start % capacity) (scale x)) (start + 1) xs

-- The part of the samples that there is space for.
unfoldable pub push : Queue → List ℤ → Queue
unfolding put_all
push q xs =
    let n = min (length xs) (capacity - q.count) in
    record q {
      samples = put_all q.samples (q.read + q.count) (take n xs);
      count = q.count + n;
      started = true;
    }

abbrev generation_of : Option Queue → Option ℕ
generation_of none = none
generation_of (some q) = some q.generation

-- The beginning of enqueue: the generation of the client's queue, if it has one.
unfoldable pub begin_enqueue : ℕ → Mixer → Option ℕ
begin_enqueue client m = generation_of (find client m.clients)

-- How a passage through the loop of enqueue ends: with the samples still to copy, or at the wait
-- for space, after which it is taken again, or canceled.
pub data Passage : Type 0 where
  copied : List ℤ → Passage
  waiting canceled : Passage

abbrev cancel_rest : Mixer → List ℤ → Passage × Mixer
cancel_rest m xs = (canceled, record m { statistics = cancel (length xs / 2) m.statistics })

abbrev count_wait : Statistics → Statistics
count_wait st = record st { producer_waits = st.producer_waits + 1 }

abbrev pub enqueue_found : ℕ → ℕ → List ℤ → Mixer → Option Queue → Passage × Mixer
enqueue_found client generation xs m none = cancel_rest m xs
enqueue_found client generation xs m (some q) =
    if not m.running || not (q.generation == generation)
    then cancel_rest m xs
    else if q.count == capacity
    then (waiting, record m { statistics = count_wait m.statistics })
    else (
      copied (drop (min (length xs) (capacity - q.count)) xs),
      record m { clients = put client (push q xs) m.clients },
    )

-- One passage with the samples that are left, of which there is one.
unfoldable pub enqueue_pass : ℕ → ℕ → List ℤ → Mixer → Passage × Mixer
unfolding push
enqueue_pass client generation xs m = enqueue_found client generation xs m (find client m.clients)

abbrev frames_of : Option Queue → ℕ
frames_of none = 0
frames_of (some q) = q.count / 2

unfoldable pub queued_frames : ℕ → Mixer → ℕ
queued_frames client m = frames_of (find client m.clients)

abbrev pub all_frames : List (ℕ × Queue) → ℕ
all_frames [] = 0
all_frames ((id, q) ∷ rest) = q.count / 2 + all_frames rest

-- `statistics`, with the queued frames.
unfoldable pub statistics : Mixer → Statistics × ℕ
statistics m = (m.statistics, all_frames m.clients)
