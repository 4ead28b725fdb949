-- ===== src/Client/Promise.antt =====
-- Operations of a client, one after the other, against the same on a plain map.
use mathlib.Core.List.{map}
use mathlib.Core.Path.{subst}
use custom_database.Prelude.{ℕ, ◌^◌, ◌<◌, ◌≤◌, ◌≡◌, Bytes, refl, sym, List, [], ◌∷◌, All}
use custom_database.Wal.Reader.{max_record_size}
use custom_database.Server.Spec.{Store}
use custom_database.Server.Refinement.{taking}
use custom_database.Client.Call.{Socket, Client}
use custom_database.Client.Link.{Link, IsSending, link_over}
use custom_database.Client.Contract.{Operation, perform, perform_all, expect, expect_all}
use custom_database.Client.Keeping.{IsOnline, IsShortWithin, FitsOperation, perform-expect}

-- An operation, the times at which its record and its commit record are logged, and what is sent for
-- the bytes of its response.
pub record Turn : Type 0 where
  pub now : ℕ
  pub later : ℕ
  pub sent : Bytes → Bytes
  pub operation : Operation

pub record IsTurn (limit : ℕ) (t : Turn) : Type 0 where
  pub time : t.now < 2 ^ 64
  pub time' : t.later < 2 ^ 64
  pub sending : IsSending limit t.sent
  pub fits : FitsOperation limit t.operation

abbrev pub on_link : Turn → Socket Link × Operation
on_link t = (link_over t.sent (taking t.now t.later), t.operation)

module _ (n limit : ℕ) (room : 64 ≤ limit) (most : limit ≤ max_record_size) where
  perform-IsOnline :
      (t : Turn) {store : Store} {c : Client Link}
      → IsTurn limit t
      → IsOnline n store c
      → IsShortWithin limit store
      → let r = perform (on_link t).0 t.operation c in
        let e = expect t.operation store in
        IsOnline n e.1 r.0 × (r.1 ≡ e.0) × IsShortWithin limit e.1
  perform-IsOnline t h on short = rw on.client_eq (
      rw (← on.store_eq) (
        perform-expect h.sending room most t.now t.later n on.id h.time h.time' on.serving
          (subst (IsShortWithin limit) (sym on.store_eq) short) t.operation h.fits))

  -- Take a client that is connected, over a connection that loses nothing, sends responses of up
  -- to some number of bytes as they were and has nothing on the way, to a server whose database
  -- serves, and a plain map that holds what lookups in the database find, all of whose values
  -- leave 25 bytes of that number, which is from 64 to the size of a record that the log reads.
  -- Whatever `get`, `put`, `del` and `ping` it calls one after the other, at times of 64 bits,
  -- with keys and values that fit a record of that many bytes, and with a device that takes what
  -- it is given: they return or throw what they would on the map, and afterwards the client is
  -- again connected to a server that serves what the map holds.
  pub perform_all-expect_all :
      (ts : List Turn) {store : Store} {c : Client Link}
      → All (IsTurn limit) ts
      → IsOnline n store c
      → IsShortWithin limit store
      → let r = perform_all (map on_link ts) c in
        let e = expect_all (map (λ t. t.operation) ts) store in (r.1 ≡ e.0) × IsOnline n e.1 r.0
  unfolding perform_all expect_all
  perform_all-expect_all [] h on short = (refl, on)
  perform_all-expect_all (t ∷ ts) (ht, h) on short =
      let (on', same, short') = perform-IsOnline t ht on short in
      let (rest, last) = perform_all-expect_all ts h on' short' in ((λ x. same x ∷ rest x), last)
