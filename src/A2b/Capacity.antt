-- ===== src/A2b/Capacity.antt =====
-- No queue of the PCM output ever holds more than its ring.
use android_device_brcm_rpi.Common.{
  if-elim, ℕ, ◌≤◌, min, Bool, not, ◌==◌, Option, none, some, List, [], ◌∷◌, ℤ, arith, ◌||◌,
}
use android_device_brcm_rpi.A2b.Output.{
  capacity, Queue, new_queue, Statistics, Mixer, find, put, erase, snoc, attach, detach,
  detach_found, flushed, clear, clear_found, push, Passage, enqueue_found, enqueue_pass,
}
use android_device_brcm_rpi.A2b.Rounds.{take_period, count_starved, mix_in, mix_all, round}

abbrev pub AllFit : List (ℕ × Queue) → Type 0
AllFit [] = Unit {0}
AllFit ((id, q) ∷ rest) = (q.count ≤ capacity) × AllFit rest

abbrev FitsIf : Option Queue → Type 0
FitsIf none = Unit {0}
FitsIf (some q) = q.count ≤ capacity

AllFit-put :
    (client : ℕ) (q : Queue) (cs : List (ℕ × Queue))
    → q.count ≤ capacity
    → AllFit cs
    → AllFit (put client q cs)
AllFit-put client q [] fit all = tt
AllFit-put client q ((id, old) ∷ rest) fit (one, all) =
    if-elim AllFit (id == client) (λ e. (fit, all)) (λ e. (one, AllFit-put client q rest fit all))

AllFit-erase : (client : ℕ) (cs : List (ℕ × Queue)) → AllFit cs → AllFit (erase client cs)
AllFit-erase client [] all = tt
AllFit-erase client ((id, old) ∷ rest) (one, all) =
    if-elim AllFit (id == client) (λ e. all) (λ e. (one, AllFit-erase client rest all))

AllFit-snoc :
    (client : ℕ) (q : Queue) (cs : List (ℕ × Queue))
    → q.count ≤ capacity
    → AllFit cs
    → AllFit (snoc cs (client, q))
AllFit-snoc client q [] fit all = (fit, tt)
AllFit-snoc client q ((id, old) ∷ rest) fit (one, all) = (one, AllFit-snoc client q rest fit all)

FitsIf-find : (client : ℕ) (cs : List (ℕ × Queue)) → AllFit cs → FitsIf (find client cs)
FitsIf-find client [] all = tt
FitsIf-find client ((id, old) ∷ rest) (one, all) =
    if-elim FitsIf (id == client) (λ e. one) (λ e. FitsIf-find client rest all)

push-fits : (q : Queue) (xs : List ℤ) → q.count ≤ capacity → (push q xs).count ≤ capacity
unfolding push
push-fits q xs fit = omega arith

enqueue_found-AllFit :
    (client generation : ℕ) (xs : List ℤ) (m : Mixer) (o : Option Queue)
    → FitsIf o
    → AllFit m.clients
    → AllFit (enqueue_found client generation xs m o).1.clients
enqueue_found-AllFit client generation xs m none fit all = all
enqueue_found-AllFit client generation xs m (some q) fit all =
    let P = λ (r : Passage × Mixer). AllFit r.1.clients in
    if-elim P (not m.running || not (q.generation == generation)) (λ e. all)
      (λ e.
        if-elim P (q.count == capacity) (λ e. all)
          (λ e. AllFit-put client (push q xs) m.clients (push-fits q xs fit) all))

mix_all-AllFit :
    (audible : Bool) (cs : List (ℕ × Queue)) (st : Statistics) (mix : List ℤ)
    → AllFit cs
    → AllFit (mix_all audible cs st mix).0
unfolding mix_all take_period
mix_all-AllFit audible [] st mix all = tt
mix_all-AllFit audible ((id, q) ∷ rest) st mix (one, all) = (
  omega arith,
  mix_all-AllFit audible rest (count_starved audible q st)
      (mix_in q.samples q.read (min q.count 480) mix) all,
)

detach_found-AllFit :
    (client : ℕ) (m : Mixer) (o : Option Queue)
    → AllFit m.clients
    → AllFit (detach_found client m o).clients
detach_found-AllFit client m none all = all
detach_found-AllFit client m (some q) all = AllFit-erase client m.clients all

clear_found-AllFit :
    (client : ℕ) (m : Mixer) (o : Option Queue)
    → AllFit m.clients
    → AllFit (clear_found client m o).clients
clear_found-AllFit client m none all = all
clear_found-AllFit client m (some q) all = AllFit-put client (flushed q) m.clients (omega arith) all

-- What the clients and the thread do to the output, one passage under the lock at a time.
pub data Event : Type 0 where
  attached : Event
  detached cleared_queue : ℕ → Event
  enqueued : ℕ → ℕ → List ℤ → Event
  played : Bool → Bool → Event

abbrev pub step : Event → Mixer → Mixer
step attached m = (attach m).1
step (detached client) m = detach client m
step (cleared_queue client) m = clear client m
step (enqueued client generation xs) m = (enqueue_pass client generation xs m).1
step (played audible wrote) m = (round audible wrote m).1

abbrev pub run_all : List Event → Mixer → Mixer
run_all [] m = m
run_all (e ∷ es) m = run_all es (step e m)

step-AllFit : (e : Event) (m : Mixer) → AllFit m.clients → AllFit (step e m).clients
unfolding attach detach clear enqueue_pass round
step-AllFit attached m all = AllFit-snoc m.next_client new_queue m.clients (omega arith) all
step-AllFit (detached client) m all = detach_found-AllFit client m (find client m.clients) all
step-AllFit (cleared_queue client) m all = clear_found-AllFit client m (find client m.clients) all
step-AllFit (enqueued client generation xs) m all =
    enqueue_found-AllFit client generation xs m (find client m.clients)
      (FitsIf-find client m.clients all) all
step-AllFit (played audible wrote) m all =
    if-elim (λ (n : Mixer). AllFit n.clients) wrote
      (λ e. mix_all-AllFit audible m.clients m.statistics _ all)
      (λ e. mix_all-AllFit audible m.clients m.statistics _ all)

-- Whatever is done to the output, in any order and by any clients: if no queue holds more samples
-- than its ring has, none ever does.
pub run_all-AllFit :
    (es : List Event) (m : Mixer) → AllFit m.clients → AllFit (run_all es m).clients
run_all-AllFit [] m all = all
run_all-AllFit (e ∷ es) m all = run_all-AllFit es (step e m) (step-AllFit e m all)
