-- ===== src/Client/Contract.antt =====
-- What a client may expect of its operations: those of a plain map. SCAN is not part of it.
use custom_database.Prelude.{
  Bool, true, false, Option, none, some, List, [], ◌∷◌, Bytes, text, Result, ok, throw,
}
use custom_database.Server.Spec.{Store, update, or_empty}
use custom_database.Client.Call.{Socket, Client}
use custom_database.Client.Call

pub data Operation : Type 0 where
  get : Bytes → Operation
  put : Bytes → Bytes → Operation
  del : Bytes → Operation
  ping : Operation

-- What an operation returns, or the exception that it throws.
pub data Answer : Type 0 where
  got : Result Bytes → Answer
  done : Result Bool → Answer

unfoldable pub perform :
    {Peer : Type 0} → Socket Peer → Operation → Client Peer → Client Peer × Answer
perform socket (get key) c = let (c', result) = Call.get socket key c in (c', got result)
perform socket (put key new) c = let (c', result) = Call.put socket key new c in (c', done result)
perform socket (del key) c = let (c', result) = Call.del socket key c in (c', done result)
perform socket ping c = let (c', result) = Call.ping socket c in (c', done result)

-- Operations one after the other, with the answers of the environment to each.
unfoldable pub perform_all :
    {Peer : Type 0} → List (Socket Peer × Operation) → Client Peer → Client Peer × List Answer
unfolding perform
perform_all [] c = (c, [])
perform_all ((socket, op) ∷ ops) c =
    let (c', answer) = perform socket op c in
    let (last, answers) = perform_all ops c' in (last, answer ∷ answers)

-- An empty value counts as missing.
unfoldable pub expect_get : Bytes → Result Bytes
expect_get [] = throw (text "GET failed: Key not found")
expect_get (b ∷ bs) = ok (b ∷ bs)

unfoldable pub expect_del : Bytes → Option Bytes → Store → Answer × Store
expect_del key none store = (done (ok false), store)
expect_del key (some old) store = (done (ok true), update key none store)

-- The same on a plain map.
unfoldable pub expect : Operation → Store → Answer × Store
unfolding expect_get expect_del
expect (get key) store = (got (expect_get (or_empty (store key))), store)
expect (put key new) store = (done (ok true), update key (some new) store)
expect (del key) store = expect_del key (store key) store
expect ping store = (done (ok true), store)

unfoldable pub expect_all : List Operation → Store → List Answer × Store
unfolding expect
expect_all [] store = ([], store)
expect_all (op ∷ ops) store =
    let (answer, store') = expect op store in
    let (answers, last) = expect_all ops store' in (answer ∷ answers, last)
