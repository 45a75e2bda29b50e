-- ===== src/Connection/Serving.antt =====
-- How the thread of TCPUnlockServer leaves the server.
use pcbu_natives_old.Prelude.{
  ℕ, ◌≡◌, ◌≢◌, refl, ap, sym, subst, ◌∙◌, Bool, true, false, Option, none, some, List, [], ◌∷◌,
  ◌++◌, All, arith, take, Option-cases, ◌⊎◌, inl, inr,
}
use pcbu_natives_old.Prelude.Texts.{Bytes}
use pcbu_natives_old.UnlockState.{UnlockState}
use pcbu_natives_old.Storage.Json.{Json}
use pcbu_natives_old.Crypt.Packet.{Host}
use pcbu_natives_old.Connection.Server.{UnlockServer, on_response_received}
use pcbu_natives_old.Connection.Answers.{
  on_response_received-SameServer, on_response_received-ne-unknown,
}
use pcbu_natives_old.Connection.TcpServer.{
  Select, TcpServer, Wait, accept_thread, accept_wait, after_wait, close_client, close_server,
  give_up, serve, failed, no_client, connected, waiting, error, timeout, ready,
}

-- The descriptor that a member holds, as the list of what SAFE_CLOSE closes.
abbrev pub held : Option ℕ → List ℕ
held none = []
held (some fd) = fd ∷ []

close_client-lem :
    (s : TcpServer)
    → ((close_client s).client_socket ≡ none)
      × ((close_client s).server_socket ≡ s.server_socket)
      × ((close_client s).base ≡ s.base)
      × ((close_client s).closed ≡ held s.client_socket ++ s.closed)
unfolding close_client
close_client-lem s = elim (Option-cases s.client_socket) [
  | inl e ↦ rw (e, close_client) (e, refl, refl, refl)
  | inr (fd, e) ↦ rw (e, close_client) (refl, refl, refl, refl)
]

close_server-lem :
    (s : TcpServer)
    → ((close_server s).server_socket ≡ none)
      × ((close_server s).client_socket ≡ s.client_socket)
      × ((close_server s).base ≡ s.base)
      × ((close_server s).closed ≡ held s.server_socket ++ s.closed)
unfolding close_server
close_server-lem s = elim (Option-cases s.server_socket) [
  | inl e ↦ rw (e, close_server) (e, refl, refl, refl)
  | inr (fd, e) ↦ rw (e, close_server) (refl, refl, refl, refl)
]

-- A client came: while the server was running, `select` timed out in each round before one in which
-- it was ready, and `accept` gave a descriptor.
abbrev pub Came : List (Bool × Select) → Option ℕ → ℕ → Type 0
Came rounds accepted fd =
    (accepted ≡ some fd)
    × (front : List (Bool × Select)) × (back : List (Bool × Select)) × (rounds
        ≡ front ++ (true, ready) ∷ back)
    × All (λ r. r ≡ (true, timeout)) front

-- The thread found no client: it has closed the listening socket and left the state as it was.
pub record GaveUp (s t : TcpServer) : Type 0 where
  pub no_server_socket : t.server_socket ≡ none
  pub no_client_socket : t.client_socket ≡ none
  pub closed : t.closed ≡ held s.server_socket ++ s.closed
  pub stopped : t.base.is_running ≡ false
  pub same_state : t.base.unlock_state ≡ s.base.unlock_state

-- A client came on `fd`: its socket and the listening one are closed, the state is decided, and the
-- server still counts as running.
pub record Answered (fd : ℕ) (answer : Option Bytes) (s t : TcpServer) : Type 0 where
  pub no_server_socket : t.server_socket ≡ none
  pub no_client_socket : t.client_socket ≡ none
  pub closed : t.closed ≡ held s.server_socket ++ fd ∷ s.closed
  pub same_running : t.base.is_running ≡ s.base.is_running
  pub connected : t.base.has_connection ≡ true
  pub decided : t.base.unlock_state ≢ UnlockState.unknown
  pub unread : answer ≡ none → t.base.unlock_state ≡ UnlockState.canceled

some_same : {s t : TcpServer} → some s ≡ some t → s ≡ t
some_same e = cc

-- Where the wait ends with a client, it is for such rounds.
accept_wait-front :
    (rounds : List (Bool × Select))
    → accept_wait rounds ≡ connected
    → (front : List (Bool × Select)) × (back : List (Bool × Select)) × (rounds
        ≡ front ++ (true, ready) ∷ back)
      × All (λ r. r ≡ (true, timeout)) front
unfolding accept_wait
accept_wait-front [] e = absurd cc
accept_wait-front ((false, s) ∷ rounds) e = absurd cc
accept_wait-front ((true, error) ∷ rounds) e = absurd cc
accept_wait-front ((true, ready) ∷ rounds) e = ([], rounds, refl, tt)
accept_wait-front ((true, timeout) ∷ rounds) e =
    let (front, back, split, quiet) = accept_wait-front rounds e in
    ((true, timeout) ∷ front, back, ap (◌∷◌ (true, timeout)) split, (refl, quiet))

accept_wait-ready :
    (front back : List (Bool × Select))
    → All (λ r. r ≡ (true, timeout)) front
    → accept_wait (front ++ (true, ready) ∷ back) ≡ connected
unfolding accept_wait
accept_wait-ready [] back h = refl
accept_wait-ready (r ∷ front) back h = rw h.0 (accept_wait-ready front back h.1)

module _ (h : Host) (j : Json) where
  give_up-GaveUp : (s : TcpServer) → s.client_socket ≡ none → GaveUp s (give_up s)
  give_up-GaveUp s e =
      let (a, b, c, closed) =
        close_server-lem (record s { base = record (s.base) { is_running = false } }) in
      record {
        no_server_socket = a;
        no_client_socket = b ∙ e;
        closed = closed;
        stopped = ap (λ (u : UnlockServer). u.is_running) c;
        same_state = ap (λ (u : UnlockServer). u.unlock_state) c;
      }

  shut_lem :
      (s : TcpServer)
      → ((close_server (close_client s)).server_socket ≡ none)
        × ((close_server (close_client s)).client_socket ≡ none)
        × ((close_server (close_client s)).base ≡ s.base)
        × ((close_server (close_client s)).closed
            ≡ held s.server_socket ++ (held s.client_socket ++ s.closed))
  shut_lem s =
      let (a, b, c, k) = close_server-lem (close_client s) in
      let (d, e, f, l) = close_client-lem s in
      (
        a,
        b ∙ d,
        c ∙ f,
        k ∙ ap (λ x. held x ++ (close_client s).closed) e ∙ ap (λ x. held s.server_socket ++ x) l,
      )

  -- From the accepted client on.
  serve-Answered :
      (fd now : ℕ) (answer : Option Bytes) (s : TcpServer)
      → Answered fd answer s (
          serve h j now answer (record s {
            client_socket = some fd;
            base = record (s.base) { has_connection = true };
          }))
  unfolding serve
  serve-Answered fd now none s =
      let (a, b, c, closed) = shut_lem (record s {
        client_socket = some fd;
        base = record (s.base) { has_connection = true; unlock_state = UnlockState.canceled };
      }) in
      let canceled = ap (λ (u : UnlockServer). u.unlock_state) c in
      record {
        no_server_socket = a;
        no_client_socket = b;
        closed = closed;
        same_running = ap (λ (u : UnlockServer). u.is_running) c;
        connected = ap (λ (u : UnlockServer). u.has_connection) c;
        decided = λ e. absurd (ground arith);
        unread = λ e. canceled;
      }
  serve-Answered fd now (some answer) s =
      let base = record (s.base) { has_connection = true } in
      let t = on_response_received h j now base (take 1024 answer) in
      let (a, b, c, closed) = shut_lem (record s { client_socket = some fd; base = t }) in
      let same = on_response_received-SameServer h j now base (take 1024 answer) in
      record {
        no_server_socket = a;
        no_client_socket = b;
        closed = closed;
        same_running = ap (λ (u : UnlockServer). u.is_running) c ∙ same.is_running;
        connected = ap (λ (u : UnlockServer). u.has_connection) c ∙ same.has_connection;
        decided = λ e.
            on_response_received-ne-unknown h j now base (take 1024 answer)
              (sym (ap (λ (u : UnlockServer). u.unlock_state) c) ∙ e);
        unread = λ e. absurd cc;
      }

  -- A thread that ends has either found no client or answered one.
  abbrev pub Served :
      List (Bool × Select) → Option ℕ → Option Bytes → TcpServer → TcpServer → Type 0
  Served rounds accepted answer s t =
      (((fd : ℕ) → ¬ Came rounds accepted fd) × GaveUp s t)
      ⊎ ((fd : ℕ) × Came rounds accepted fd × Answered fd answer s t)

  not-Came :
      (rounds : List (Bool × Select)) (accepted : Option ℕ) (w : Wait)
      → accept_wait rounds ≡ w
      → w ≢ connected
      → (fd : ℕ) → ¬ Came rounds accepted fd
  not-Came rounds accepted w e other fd (a, front, back, split, quiet) =
      other (sym e ∙ ap accept_wait split ∙ accept_wait-ready front back quiet)

  after_wait-Served :
      (rounds : List (Bool × Select)) (w : Wait) (accepted : Option ℕ) (now : ℕ)
      (answer : Option Bytes) (s t : TcpServer)
      → s.client_socket ≡ none
      → accept_wait rounds ≡ w
      → after_wait h j w accepted now answer s ≡ some t
      → Served rounds accepted answer s t
  unfolding after_wait
  after_wait-Served rounds waiting accepted now answer s t e w run = absurd (ground arith)
  after_wait-Served rounds failed accepted now answer s t e w run = inl (
    not-Came rounds accepted failed w (λ f. cc),
    subst (GaveUp s) (some_same run) (give_up-GaveUp s e),
  )
  after_wait-Served rounds no_client accepted now answer s t e w run = inl (
    not-Came rounds accepted no_client w (λ f. cc),
    subst (GaveUp s) (some_same run) (give_up-GaveUp s e),
  )
  after_wait-Served rounds connected none now answer s t e w run =
      inl ((λ fd came. cc), subst (GaveUp s) (some_same run) (give_up-GaveUp s e))
  after_wait-Served rounds connected (some fd) now answer s t e w run =
      let (front, back, split, quiet) = accept_wait-front rounds w in
      inr (
        fd,
        (refl, front, back, split, quiet),
        subst (Answered fd answer s) (some_same run) (serve-Answered fd now answer s),
      )

  -- A thread of TCPUnlockServer that begins without a client's socket and ends has closed every
  -- socket. If a client came in time, its socket was closed once, before the listening one, and the
  -- state is decided, CANCELED where nothing could be read; if none came, the thread gave up, closed
  -- the listening socket and left the state alone. A client came in time if `select` timed out in
  -- every round before one in which it was ready, the server was running in all of them, and `accept`
  -- gave a descriptor.
  pub accept_thread-Served :
      (rounds : List (Bool × Select)) (accepted : Option ℕ) (now : ℕ) (answer : Option Bytes)
      (s t : TcpServer)
      → s.client_socket ≡ none
      → accept_thread h j rounds accepted now answer s ≡ some t
      → Served rounds accepted answer s t
  unfolding accept_thread
  accept_thread-Served rounds accepted now answer s t e run =
      after_wait-Served rounds (accept_wait rounds) accepted now answer s t e refl run
