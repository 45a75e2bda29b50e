-- ===== src/Win/Listener/Lifecycle.antt =====
-- Start, Stop and Release of win-pcbiounlock/src/CUnlockListener.cpp: the flag and the thread.
use pcbu_natives_old.Prelude.{
  ℕ, suc, ◌+◌, ◌≤◌, ◌≡◌, refl, ◌∙◌, arith, Bool, true, false, Bool-cases, inl, inr, List, [], ◌∷◌,
  if◌then◌else◌,
}

-- m_IsRunning, and whether m_ListenThread is joinable; `in_thread` tells whether ListenThread is
-- still running in it, and `started` counts the threads.
pub record Listener : Type 0 where
  pub is_running : Bool
  pub joinable : Bool
  pub in_thread : Bool
  pub started : ℕ

abbrev pub new_listener : Listener
new_listener = record { is_running = false; joinable = false; in_thread = false; started = 0 }

-- `terminates` is std::terminate, which assigning to a joinable std::thread calls.
pub data Life : Type 0 where
  goes_on : Listener → Life
  terminates : Life

-- join returns when ListenThread has returned, which it does once m_IsRunning is false.
unfoldable pub stop : Listener → Listener
stop l =
    if l.is_running
    then record l {
      is_running = false;
      joinable = false;
      in_thread = if l.joinable then false else l.in_thread;
    }
    else l

-- `m_ListenThread = std::thread(...)`
unfoldable pub assign_thread : Listener → Life
assign_thread l =
    if l.joinable
    then terminates
    else goes_on (record l { joinable = true; in_thread = true; started = suc l.started })

unfoldable pub start : Listener → Life
start l = if l.is_running then goes_on l else assign_thread (record (stop l) { is_running = true })

abbrev pub release : Listener → Listener
unfolding stop
release l = stop l

-- What happens to a listener: calls of the tile, and the end of ListenThread by itself.
pub data Event : Type 0 where
  started stopped thread_ended : Event

unfoldable pub happen : Event → Listener → Life
unfolding start stop
happen started l = start l
happen stopped l = goes_on (stop l)
happen thread_ended l = goes_on (record l { in_thread = false })

unfoldable pub history : List Event → Listener → Life
unfolding happen
history [] l = goes_on l
history (e ∷ es) l = elim (happen e l) [
  | terminates ↦ terminates
  | goes_on after ↦ history es after
]

-- The thread is joinable exactly while the flag is set, and ListenThread runs in no other.
pub record Sound (l : Listener) : Type 0 where
  pub joined : l.joinable ≡ l.is_running
  pub flagged : l.in_thread ≡ true → l.is_running ≡ true

abbrev pub one_if : Bool → ℕ
one_if true = 1
one_if false = 0

-- How often Stop is called.
unfoldable pub stops : List Event → ℕ
stops [] = 0
stops (stopped ∷ es) = suc (stops es)
stops (started ∷ es) = stops es
stops (thread_ended ∷ es) = stops es

-- One event, and the bound it keeps: the threads started so far are the ones stopped and the one
-- that the flag stands for.
abbrev pub KeepsSound : ℕ → Event → Listener → Type 0
KeepsSound n e l =
    (after : Listener) × (happen e l ≡ goes_on after)
    × Sound after
    × (after.started ≤ n + stops (e ∷ []) + one_if after.is_running)

happen-Sound :
    (e : Event) (l : Listener) (n : ℕ)
    → Sound l
    → l.started ≤ n + one_if l.is_running
    → KeepsSound n e l
unfolding happen start stop assign_thread stops
happen-Sound started l n sound bound = elim (Bool-cases l.is_running) [
  | inl on ↦ (l, rw on refl, sound, omega (arith, bound))
  | inr off ↦
      let none_there : l.joinable ≡ false = sound.joined ∙ off in
      let few : l.started ≤ n = ground (arith, rw off at bound) in
      (
        record l { is_running = true; joinable = true; in_thread = true; started = suc l.started },
        rw (off, none_there) refl,
        record { joined = refl; flagged = λ e. refl },
        omega (arith, few),
      )
]
happen-Sound stopped l n sound bound = elim (Bool-cases l.is_running) [
  | inl on ↦
      let there : l.joinable ≡ true = sound.joined ∙ on in
      (
        record l { is_running = false; joinable = false; in_thread = false },
        rw (on, there) refl,
        record { joined = refl; flagged = λ e. absurd cc },
        ground (arith, rw on at bound),
      )
  | inr off ↦ (l, rw off refl, sound, omega (arith, bound))
]
happen-Sound thread_ended l n sound bound = (
  record l { in_thread = false },
  refl,
  record { joined = sound.joined; flagged = λ e. absurd cc },
  omega (arith, bound),
)

stops_one : (e : Event) (es : List Event) → stops (e ∷ es) ≡ stops (e ∷ []) + stops es
unfolding stops
stops_one started es = omega arith
stops_one stopped es = omega arith
stops_one thread_ended es = omega arith

history-Sound :
    (es : List Event) (l : Listener) (n : ℕ)
    → Sound l
    → l.started ≤ n + one_if l.is_running
    → (after : Listener) × (history es l ≡ goes_on after)
      × Sound after
      × (after.started ≤ n + stops es + one_if after.is_running)
unfolding history stops
history-Sound [] l n sound bound = (l, refl, sound, omega (arith, bound))
history-Sound (e ∷ es) l n sound bound =
    let (after, one, next, less) = happen-Sound e l n sound bound in
    let (last, rest, good, few) = history-Sound es after (n + stops (e ∷ [])) next less in
    (last, rw (one, history) rest, good, omega (arith, few, stops_one e es))

-- Whatever order Start, Stop and the end of the thread come in, the program is never terminated by
-- an assignment to a running thread: the thread is joinable exactly while m_IsRunning is set, and
-- once it is not, ListenThread runs no more. At most one thread is started before the first Stop and
-- one after each Stop, also where ListenThread has ended by itself.
pub history_safe :
    (es : List Event)
    → (l : Listener) × (history es new_listener ≡ goes_on l)
      × (l.joinable ≡ l.is_running)
      × (l.is_running ≡ false → l.in_thread ≡ false)
      × (l.started ≤ stops es + one_if l.is_running)
history_safe es =
    let (l, e, sound, few) =
      history-Sound es new_listener 0 (record { joined = refl; flagged = λ e. cc }) (omega arith) in
    (l, e, sound.joined, ground (arith, sound.flagged), omega (arith, few))
