-- ===== src/Handler/Waiting.antt =====
-- The wait of UnlockHandler::GetResult: the mutex, the condition variable, and the main thread, which
-- keeps the mutex locked from the end of its wait until it has joined the threads.
use pcbu_natives_old.Prelude.{
  ℕ, ◌≡◌, ◌≢◌, Bool, true, false, Option, none, some, List, [], ◌∷◌, ◌++◌, All,
}
use pcbu_natives_old.Handler.Result.{UnlockResult}
use pcbu_natives_old.Handler.Threads.{Phase, Shared, Threads, fresh, all_running, ThreadStep}

-- The main thread: before it locks the mutex; at the test of cv.wait; asleep in cv.wait; woken there;
-- past the wait; with the result that it loaded, joining the threads; and at its return.
pub data Main : Type 0 where
  starting testing asleep woken past : Main
  joining finished : UnlockResult → Main

-- Whether the main thread holds the mutex. cv.wait gives it up while it sleeps, and the lock lives
-- until GetResult returns.
unfoldable pub has_mutex : Main → Bool
has_mutex Main.testing = true
has_mutex Main.past = true
has_mutex (Main.joining r) = true
has_mutex _ = false

-- cv.notify_one
unfoldable pub notified : Main → Main
notified Main.asleep = Main.woken
notified m = m

pub record System : Type 0 where
  pub shared : Shared
  pub phases : List Phase
  pub main : Main

abbrev pub start_system : ℕ → System
start_system n = record { shared = fresh; phases = all_running n; main = Main.starting }

abbrev pub IsOver : Phase → Type 0
IsOver p = p ≡ Phase.over

pub at_middle :
    (P : Phase → Type 0) (front back : List Phase) (p : Phase) → All P (front ++ p ∷ back) → P p
at_middle P [] back p h = h.0
at_middle P (x ∷ front) back p h = at_middle P front back p h.1

-- What the main thread has loaded.
unfoldable pub loaded_of : Main → Option UnlockResult
loaded_of (Main.joining r) = some r
loaded_of (Main.finished r) = some r
loaded_of _ = none

-- The threads and the result, without the mutex and the wait.
abbrev pub forget : System → Threads
forget s = record { shared = s.shared; phases = s.phases; loaded = loaded_of s.main }

module _ (Returns : UnlockResult → Type 0) where
  -- One move of the program: a step of a thread that needs no mutex; locking it, notify_one and
  -- unlocking it; or a step of the main thread.
  pub data Move (n : ℕ) : System → System → Type 0 where
    works :
        (front back : List Phase) (s t : Shared) (p q : Phase) (m : Main)
        → p ≢ Phase.notifying
        → ThreadStep Returns n s p t q
        → Move n
            (record { shared = s; phases = front ++ p ∷ back; main = m })
            (record { shared = t; phases = front ++ q ∷ back; main = m })
    notifies_one :
        (front back : List Phase) (s : Shared) (m : Main)
        → has_mutex m ≡ false
        → Move n
            (record { shared = s; phases = front ++ Phase.notifying ∷ back; main = m })
            (record { shared = s; phases = front ++ Phase.over ∷ back; main = notified m })
    locks :
        (s : Shared) (ps : List Phase)
        → Move n
            (record { shared = s; phases = ps; main = Main.starting })
            (record { shared = s; phases = ps; main = Main.testing })
    sleeps :
        (s : Shared) (ps : List Phase)
        → s.completed ≢ n
        → Move n
            (record { shared = s; phases = ps; main = Main.testing })
            (record { shared = s; phases = ps; main = Main.asleep })
    relocks :
        (s : Shared) (ps : List Phase)
        → Move n
            (record { shared = s; phases = ps; main = Main.woken })
            (record { shared = s; phases = ps; main = Main.testing })
    passes :
        (s : Shared) (ps : List Phase)
        → s.completed ≡ n
        → Move n
            (record { shared = s; phases = ps; main = Main.testing })
            (record { shared = s; phases = ps; main = Main.past })
    loads_result :
        (s : Shared) (ps : List Phase)
        → Move n
            (record { shared = s; phases = ps; main = Main.past })
            (record { shared = s; phases = ps; main = Main.joining (s.current) })
    joins :
        (s : Shared) (ps : List Phase) (r : UnlockResult)
        → All IsOver ps
        → Move n
            (record { shared = s; phases = ps; main = Main.joining r })
            (record { shared = s; phases = ps; main = Main.finished r })

  -- The runs of GetResult from the start of its threads on; the condition variable may also wake the
  -- main thread without a notification.
  pub data Run (n : ℕ) : System → Type 0 where
    begin : Run n (start_system n)
    moves : {s t : System} → Run n s → Move n s t → Run n t
    wakes :
        (s : Shared) (ps : List Phase)
        → Run n (record { shared = s; phases = ps; main = Main.asleep })
        → Run n (record { shared = s; phases = ps; main = Main.woken })
