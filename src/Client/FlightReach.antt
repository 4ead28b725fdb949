-- ===== src/Client/FlightReach.antt =====
-- Overlapping calls of several clients, and the order in which the server processes their requests.
use mathlib.Core.Path.{subst}
use custom_database.Prelude.{
  Bytes, ℕ, zero, suc, ◌^◌, ◌<◌, ◌≡◌, inl, refl, sym, ◌∙◌, some, List, [], ◌∷◌, ◌++◌, append-nil,
  append_assoc, length, All, nth, some-injective,
}
use custom_database.Wal.Record.{WalRecord}
use custom_database.Database.State.{Database}
use custom_database.Database.Durability
use custom_database.Server.History.{Reach_trans}
use custom_database.Server.Spec.{promise_all}
use custom_database.Server.Refinement.{view, IsServing, taking}
use custom_database.Client.LinkLaws.{online}
use custom_database.Client.Keeping.{IsShort}
use custom_database.Client.Flight.{
  calm, Conn, Flight, serve, after_serve, IsIntact, Step, asking, serving, hearing, Reach, start,
  next,
}
use custom_database.Server.Served.{Served, given, IsArranged, arrange, stands_here}
use custom_database.Client.FlightServer.{Standing, resting, IsProcessed, serve-IsProcessed}
use custom_database.Client.FlightClient.{ask-Standing, hear-Standing}

-- The server has processed requests in this order, as the map that its first database held promises, and every
-- client has heard the responses to its own, but for the last one at most.
pub record IsOrdered (origin : Database) (s : Flight) (order : List Served) : Type 0 where
  pub db : Database
  pub rs : List WalRecord
  pub serving : IsServing db rs
  pub short : IsShort (view db)
  pub reached : Durability.Reach origin db
  pub database_eq : s.database ≡ some db
  pub arranged : IsArranged Standing (view origin) order (view db) s.conns

module _ {origin : Database} where
  -- A client has gone on.
  changed :
      {s : Flight} {order : List Served} (v : IsOrdered origin s order) (before after : List Conn)
      (c c' : Conn)
      → s.conns ≡ before ++ (c ∷ after)
      → Standing (given (length before) order) c'
      → (more : List Served) × IsOrdered origin
          (record s { conns = before ++ (c' ∷ after) })
          (order ++ more)
  changed v before after c c' e mine =
      let (more, arranged) = arrange v.arranged before after c c' e (inl (refl, mine)) in
      (
        more,
        record {
          db = v.db;
          rs = v.rs;
          serving = v.serving;
          short = v.short;
          reached = v.reached;
          database_eq = v.database_eq;
          arranged = arranged;
        },
      )

  serve-IsOrdered :
      {s : Flight} {order : List Served} (sent : Bytes → Bytes) (now later : ℕ)
      (before after : List Conn) (c : Conn)
      → now < 2 ^ 64
      → later < 2 ^ 64
      → s.conns ≡ before ++ (c ∷ after)
      → IsIntact sent c.client.peer.handler.pending
      → IsOrdered origin s order
      → (more : List Served) × IsOrdered origin
          (after_serve sent (taking now later) before c after s)
          (order ++ more)
  unfolding after_serve
  serve-IsOrdered {s} {order} sent now later before after c time time' e whole v =
      let io = taking now later in
      let c' = serve sent io s.database c in
      let here = stands_here v.arranged before after c e in
      let p : IsProcessed v.db (given (length before) order) c' =
        subst (λ d. IsProcessed v.db (given (length before) order) (serve sent io d c))
          (sym v.database_eq)
          (serve-IsProcessed now later time time' v.serving v.short sent here whole) in
      let (more, arranged) = arrange v.arranged before after c c' e p.outcome in
      (
        more,
        record {
          db = p.db;
          rs = p.rs;
          serving = p.serving;
          short = p.short;
          reached = Reach_trans v.reached p.reached;
          database_eq = p.database_eq;
          arranged = arranged;
        },
      )

  pub Step-IsOrdered :
      {s t : Flight} {order : List Served}
      → IsOrdered origin s order
      → Step s t
      → (more : List Served) × IsOrdered origin t (order ++ more)
  Step-IsOrdered v (asking before after c type key value e quiet connected t keyed fits) =
      changed v before after c _ e
        (ask-Standing type key value quiet t keyed fits (stands_here v.arranged before after c e))
  Step-IsOrdered v (serving sent now later before after c time time' e whole) =
      serve-IsOrdered sent now later before after c time time' e whole v
  Step-IsOrdered v (hearing before after c m e phase there) =
      changed v before after c _ e
        (hear-Standing m phase there (stands_here v.arranged before after c e))

  pub Reach-IsOrdered :
      {s t : Flight} {order : List Served}
      → IsOrdered origin s order
      → Reach s t
      → (more : List Served) × IsOrdered origin t (order ++ more)
  Reach-IsOrdered {order = order} v start =
      ([], subst (IsOrdered origin _) (sym (append-nil order)) v)
  Reach-IsOrdered {order = order} v (next path step) =
      let (more, v') = Reach-IsOrdered v path in
      let (last, v'') = Step-IsOrdered v' step in
      (more ++ last, subst (IsOrdered origin _) (append_assoc order more last) v'')

-- A client that has just connected.
abbrev pub IsFresh : Conn → Type 0
IsFresh c =
    (n : ℕ) × (db : Database) × (id : ℕ) × (c
      ≡ record { phase = calm; client = online n db id; heard = [] })

fresh-Standing :
    (i : ℕ) (conns : List Conn) (c : Conn)
    → All IsFresh conns
    → nth i conns ≡ some c
    → Standing [] c
fresh-Standing i [] c h there = absurd cc
fresh-Standing zero (v ∷ conns) c ((n, db, id, e), h) there =
    subst (Standing []) (sym e ∙ some-injective there) (resting n db id)
fresh-Standing (suc i) (v ∷ conns) c (one, h) there = fresh-Standing i conns c h there

pub fresh-IsOrdered :
    {db : Database} {rs : List WalRecord} {s : Flight}
    → IsServing db rs
    → IsShort (view db)
    → s.database ≡ some db
    → All IsFresh s.conns
    → IsOrdered db s []
unfolding promise_all
fresh-IsOrdered {db} {rs} {s} v short attached fresh = record {
  db = db;
  rs = rs;
  serving = v;
  short = short;
  reached = Durability.start;
  database_eq = attached;
  arranged = record {
    promised = record { responses = refl; last_eq = refl };
    each = λ i c there. fresh-Standing i s.conns c fresh there;
  };
}

pub linearizable :
    {db : Database} {rs : List WalRecord} {s t u : Flight}
    → IsServing db rs
    → IsShort (view db)
    → s.database ≡ some db
    → All IsFresh s.conns
    → Reach s t
    → Reach t u
    → (order : List Served) × (more : List Served) × IsOrdered db t order
      × IsOrdered db u (order ++ more)
linearizable v short attached fresh path further =
    let (order, then) = Reach-IsOrdered (fresh-IsOrdered v short attached fresh) path in
    let (more, later) = Reach-IsOrdered then further in (order, more, then, later)
