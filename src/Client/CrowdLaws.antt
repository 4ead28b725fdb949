-- ===== src/Client/CrowdLaws.antt =====
-- Several clients of one server, against the operations of one plain map.
use mathlib.Core.List.{map}
use mathlib.Core.Path.{subst}
use custom_database.Prelude.{
  ℕ, zero, suc, ◌<◌, ◌≡◌, refl, ap, sym, ◌∙◌, arith, Option, some, List, [], ◌∷◌, ◌++◌, All, length,
}
use custom_database.Wal.Reader.{max_record_size}
use custom_database.Wal.Record.{WalRecord}
use custom_database.Database.State.{Database}
use custom_database.Server.Spec.{Store}
use custom_database.Server.Refinement.{view, IsServing}
use custom_database.Client.Call.{Socket, Client}
use custom_database.Client.Link.{Link}
use custom_database.Client.LinkLaws.{online}
use custom_database.Client.Contract.{Operation, Answer, expect, expect_all}
use custom_database.Client.Keeping.{IsShort, perform-expect}
use custom_database.Client.Promise.{Turn, IsTurn, on_link}
use custom_database.Client.Crowd.{perform_nth, perform_each}

-- A client whose connection is open and has nothing on the way.
abbrev pub IsIdle : Client Link → Type 0
IsIdle c = (n : ℕ) × (db : Database) × (id : ℕ) × (c ≡ online n db id)

abbrev pub IsCallOf : ℕ → ℕ × Turn → Type 0
IsCallOf clients (i, t) = (i < clients) × IsTurn max_record_size t

abbrev pub call_of : ℕ × Turn → ℕ × Socket Link × Operation
call_of (i, t) = (i, (on_link t).0, t.operation)

-- Clients and their database after calls, with the answers, where a plain map gives these.
pub record IsKept (n : ℕ) (r : Option Database × List (Client Link) × List Answer)
    (answers : List Answer) (store : Store) : Type 0 where
  pub db : Database
  pub rs : List WalRecord
  pub serving : IsServing db rs
  pub database_eq : r.0 ≡ some db
  pub view_eq : view db ≡ store
  pub idle : All IsIdle r.1
  pub size : length r.1 ≡ n
  pub answers_eq : r.2 ≡ answers

module _ {db : Database} {rs : List WalRecord} (v : IsServing db rs) (short : IsShort (view db))
    (t : Turn) (h : IsTurn max_record_size t) where
  first-IsKept :
      (c : Client Link) (cs : List (Client Link))
      → IsIdle c
      → All IsIdle cs
      → let e = expect t.operation (view db) in
        IsKept
          (suc (length cs))
          (perform_nth zero (on_link t).0 t.operation (some db) (c ∷ cs))
          (e.0 ∷ [])
          e.1
        × IsShort e.1
  unfolding perform_nth
  first-IsKept c cs (n, db₀, id, e) idle =
      let (on, answer, short') =
        perform-expect h.sending (omega arith) (omega arith) t.now t.later n id h.time h.time' v
          short t.operation h.fits in
      rw e (
        record {
          db = on.db;
          rs = on.rs;
          serving = on.serving;
          database_eq = ap (λ c. c.peer.database) on.client_eq;
          view_eq = on.store_eq;
          idle = ((n, on.db, on.id, on.client_eq), idle);
          size = refl;
          answers_eq = λ x. answer x ∷ [];
        },
        short',
      )

  perform_nth-IsKept :
      (i : ℕ) (cs : List (Client Link))
      → i < length cs
      → All IsIdle cs
      → let e = expect t.operation (view db) in
        IsKept (length cs) (perform_nth i (on_link t).0 t.operation (some db) cs) (e.0 ∷ []) e.1
        × IsShort e.1
  unfolding perform_nth
  perform_nth-IsKept i [] lt idle = absurd (omega arith)
  perform_nth-IsKept zero (c ∷ cs) lt (one, rest) = first-IsKept c cs one rest
  perform_nth-IsKept (suc i) (c ∷ cs) lt (one, rest) =
      let (k, short') = perform_nth-IsKept i cs (omega arith) rest in
      (
        record {
          db = k.db;
          rs = k.rs;
          serving = k.serving;
          database_eq = k.database_eq;
          view_eq = k.view_eq;
          idle = (one, k.idle);
          size = ap suc k.size;
          answers_eq = k.answers_eq;
        },
        short',
      )

pub perform_each-expect_all :
    (ts : List (ℕ × Turn)) (cs : List (Client Link)) {db : Database} {rs : List WalRecord}
    → All (IsCallOf (length cs)) ts
    → All IsIdle cs
    → IsServing db rs
    → IsShort (view db)
    → let e = expect_all (map (λ t. t.1.operation) ts) (view db) in
      IsKept (length cs) (perform_each (map call_of ts) (some db) cs) e.0 e.1
unfolding perform_each expect_all
perform_each-expect_all [] cs h idle v short = record {
  db = _;
  rs = _;
  serving = v;
  database_eq = refl;
  view_eq = refl;
  idle = idle;
  size = refl;
  answers_eq = refl;
}
perform_each-expect_all ((i, t) ∷ ts) cs {db} ((hi, ht), h) idle v short =
    let (k, short') = perform_nth-IsKept v short t ht i cs hi idle in
    let r = perform_nth i (on_link t).0 t.operation (some db) cs in
    let E = λ (store : Store). expect_all (map (λ t. t.1.operation) ts) store in
    let rest₀ =
      perform_each-expect_all ts r.1 (subst (λ n. All (IsCallOf n) ts) (sym k.size) h) k.idle
        k.serving (subst IsShort (sym k.view_eq) short') in
    let rest₁ : IsKept (length r.1) (perform_each (map call_of ts) r.0 r.1) (E (view k.db)).0
        (E (view k.db)).1 =
      subst
        (λ d.
          IsKept (length r.1) (perform_each (map call_of ts) d r.1) (E (view k.db)).0
            (E (view k.db)).1)
        (sym k.database_eq) rest₀ in
    let rest =
      subst
        (λ store.
          IsKept (length r.1) (perform_each (map call_of ts) r.0 r.1) (E store).0 (E store).1)
        k.view_eq rest₁ in
    record {
      db = rest.db;
      rs = rest.rs;
      serving = rest.serving;
      database_eq = rest.database_eq;
      view_eq = rest.view_eq;
      idle = rest.idle;
      size = rest.size ∙ k.size;
      answers_eq = λ x. k.answers_eq x ++ rest.answers_eq x;
    }
