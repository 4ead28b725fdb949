-- ===== src/Client/FlightSoon.antt =====
-- How soon a client that waits among several has its response.
use custom_database.Prelude.{
  ℕ, zero, suc, ◌+◌, ◌≤◌, ◌≡◌, refl, ap, ◌∙◌, arith, some, List, [], ◌∷◌, ◌++◌, Bytes, length,
  Result, All, nth, nth-here, length-append,
}
use custom_database.Bytes.Words.{word, read_word, length-word, read_word-append}
use custom_database.Protocol.Message.{Message, serialize}
use custom_database.Database.State.{Database}
use custom_database.Server.Connection.{Pending, header, body, response, nothing, wire}
use custom_database.Server.Request.{RequestIo}
use custom_database.Server.Refinement.{view, IsServing, taking}
use custom_database.Client.Keeping.{IsShort}
use custom_database.Wal.Record.{WalRecord}
use custom_database.Client.Link.{Link, unchanged}
use custom_database.Client.LinkLaws.{IsSendable, size, size_eq, turn-body, turn-response, turn-wire}
use custom_database.Client.Flight.{
  calm, asked, Conn, Flight, IsThere, IsIntact, serve, hear, after_serve, serving, hearing, Reach,
  start, next,
}
use custom_database.Server.Served.{Served, stands_here}
use custom_database.Client.FlightServer.{Standing, resting, sent, taken, answered, written}
use custom_database.Client.FlightReach.{IsOrdered, Step-IsOrdered, IsFresh, linearizable}

-- The completions of the handler until the response is written.
abbrev left_at : Pending → Bytes → ℕ
left_at header [] = 0
left_at header (b ∷ bs) = 3
left_at (body n) bytes = 2
left_at (response out) bytes = 1
left_at nothing bytes = 0

abbrev pub completions_left : Conn → ℕ
completions_left c = left_at c.client.peer.handler.pending c.client.peer.to_server

abbrev left_of : Link → ℕ
left_of l = left_at l.handler.pending l.to_server

completions_left-serve :
    (io : RequestIo) (db : Database) {given : List (Message × Result Message)} {c : Conn} (k : ℕ)
    → Standing given c
    → completions_left c ≡ suc k
    → completions_left (serve unchanged io (some db) c) ≡ k
unfolding serve word
completions_left-serve io db k (resting n db₀ id) e = absurd cc
completions_left-serve io db k (sent n db₀ id m v) e =
    ap left_of (turn-wire unchanged io n db v.sendable []) ∙ omega (arith, e)
completions_left-serve io db k (taken n db₀ id m v) e =
    ap left_of (turn-body unchanged io n db v.sendable []) ∙ omega (arith, e)
completions_left-serve io db k (answered n db₀ id m a heard u e') e =
    ap left_of (turn-response unchanged io n db (wire a) []) ∙ omega (arith, e)
completions_left-serve io db k (written n db₀ id m a heard u e') e = absurd cc

unchanged-IsIntact : (p : Pending) → IsIntact unchanged p
unchanged-IsIntact header = tt
unchanged-IsIntact (body n) = tt
unchanged-IsIntact (response bytes) = refl
unchanged-IsIntact nothing = tt

wire-IsThere : {a : Message} → IsSendable a → IsThere (wire a)
unfolding wire
wire-IsThere {a} u =
    let four = length-word 4 (size u) in
    let sizes = length-append (word 4 (size u)) (serialize a) in
    let announced : read_word 4 0 (word 4 (size u) ++ serialize a) ≡ size u =
      read_word-append 4 0 (size u) [] (serialize a) refl (omega (arith, size_eq u)) in
    (omega (arith, four, sizes), omega (arith, four, sizes, announced, size_eq u))

Standing-IsThere :
    {given : List (Message × Result Message)} {c : Conn} {m : Message}
    → Standing given c
    → c.phase ≡ asked m
    → completions_left c ≡ 0
    → IsThere c.client.peer.to_client
unfolding word
Standing-IsThere (resting n db id) phase e = absurd cc
Standing-IsThere (sent n db id m v) phase e = absurd cc
Standing-IsThere (taken n db id m v) phase e = absurd cc
Standing-IsThere (answered n db id m a heard u e') phase e = absurd cc
Standing-IsThere (written n db id m a heard u e') phase e = wire-IsThere u

-- The steps of a run.
unfoldable pub steps : {s t : Flight} → Reach s t → ℕ
steps start = 0
steps (next path step) = suc (steps path)

module _ {origin : Database} where
  go_on :
      (k : ℕ) {s t : Flight} {order : List Served} (before after : List Conn) (c : Conn)
      (m : Message)
      → (path : Reach s t) → IsOrdered origin t order
      → t.conns ≡ before ++ (c ∷ after)
      → c.phase ≡ asked m
      → completions_left c ≡ k
      → (u : Flight) × (c' : Conn) × (path' : Reach s u) × (steps path' ≡ steps path + suc k)
        × (nth (length before) u.conns ≡ some c')
        × (c'.phase ≡ calm)
  unfolding steps hear serve after_serve
  go_on zero before after c m path v e phase left = (
    _,
    hear m c,
    next path (
        hearing before after c m e phase
          (Standing-IsThere (stands_here v.arranged before after c e) phase left)),
    omega arith,
    nth-here before after (hear m c),
    refl,
  )
  go_on (suc k) {t = t} before after c m path v e phase left =
      let io = taking 0 0 in
      let c' = serve unchanged io t.database c in
      let step =
        serving unchanged 0 0 before after c (omega arith) (omega arith) e
          (unchanged-IsIntact c.client.peer.handler.pending) in
      let fewer : completions_left c' ≡ k =
        ap (λ d. completions_left (serve unchanged io d c)) v.database_eq
        ∙ completions_left-serve io v.db k (stands_here v.arranged before after c e) left in
      let (u, c'', path', count, there, done) =
        go_on k before after c' m (next path step) (Step-IsOrdered v step).1 refl phase fewer in
      (u, c'', path', omega (arith, count), there, done)

left_at_bound : (p : Pending) (bytes : Bytes) → left_at p bytes ≤ 3
left_at_bound header [] = omega arith
left_at_bound header (b ∷ bs) = omega arith
left_at_bound (body n) bytes = omega arith
left_at_bound (response out) bytes = omega arith
left_at_bound nothing bytes = omega arith

-- Take any number of clients that have just connected to a server whose database serves, all of
-- whose values fit a response. In every state that they reach by overlapping calls, of any type
-- but SCAN, with keys and values that fit a request, over connections that lose nothing and send
-- each response as it was, at times of 64 bits, and with a device that takes what it is given,
-- every client that waits for a response can have its call done within four more steps.
pub hears_soon :
    {db : Database} {rs : List WalRecord} {s t : Flight} (before after : List Conn) (c : Conn)
    (m : Message)
    → IsServing db rs
    → IsShort (view db)
    → s.database ≡ some db
    → All IsFresh s.conns
    → Reach s t
    → t.conns ≡ before ++ (c ∷ after)
    → c.phase ≡ asked m
    → (u : Flight) × (c' : Conn) × (path : Reach t u) × (steps path ≤ 4)
      × (nth (length before) u.conns ≡ some c')
      × (c'.phase ≡ calm)
unfolding steps
hears_soon before after c m v short attached fresh reached e phase =
    let ordered = (linearizable v short attached fresh reached start).2 in
    let (u, c', path, count, there, done) = go_on _ before after c m start ordered e phase refl in
    let few = left_at_bound c.client.peer.handler.pending c.client.peer.to_server in
    (u, c', path, omega (arith, count, few), there, done)
