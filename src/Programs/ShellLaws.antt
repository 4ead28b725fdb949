-- ===== src/Programs/ShellLaws.antt =====
-- Runs of the command line client against a server that serves.
use custom_database.Prelude.{
  ◌≤◌, ℕ, ◌^◌, ◌<◌, ◌≡◌, refl, ap, ◌∙◌, Bool, true, some, List, [], ◌∷◌, Bytes, text, ok,
}
use custom_database.Bytes.Order.{str_eq, str_eq_refl}
use custom_database.Wal.Record.{WalRecord}
use custom_database.Database.State.{Database}
use custom_database.Server.Connection.{header}
use custom_database.Server.Spec.{update}
use custom_database.Server.Refinement.{view, IsServing, taking}
use custom_database.Wal.Reader.{max_record_size}
use custom_database.Client.Call.{Socket, connect}
use custom_database.Client.Link.{IsSending, link_over}
use custom_database.Client.LinkLaws.{at}
use custom_database.Client.Serving.{FitsWithin, put-serving, get-serving}
use custom_database.Programs.Shell.{
  ℤ, stoi, port_of, Report, report_get, report_flag, run_command, run_client, main,
}

main-run_command :
    {Peer : Type 0} (socket : Socket Peer) (reached : Bytes → ℕ → Bool) (peer : Peer)
    (host port : Bytes) {i : ℤ}
    → stoi port ≡ ok i
    → reached host (port_of i) ≡ true
    → (command : Bytes) (args : List Bytes)
    → main socket reached peer (host ∷ port ∷ command ∷ args) ≡ (
        let r =
          run_command socket command args
            (record { peer = peer; is_open = true; connected = true; request_id = 0 }) in
        ok (r.0.peer, r.1))
unfolding main run_client connect
main-run_command socket reached peer host port is_port is_reached command args =
    rw (is_port, main) (rw is_reached refl)

-- One run of the program against a server that is reached, and the database behind it afterwards.
abbrev pub IsRun :
    (sent : Bytes → Bytes) (now later n : ℕ)
    → (Bytes → ℕ → Bool)
    → List Bytes
    → Database
    → Database
    → Report
    → Type 0
IsRun sent now later n reached arguments db db' report =
    main (link_over sent (taking now later)) reached (at n header db [] []) arguments
    ≡ ok (at n header db' [] [], report)

module _ {limit : ℕ} {sent : Bytes → Bytes} (sending : IsSending limit sent) (room : 64 ≤ limit)
    (most : limit ≤ max_record_size) (now later n : ℕ) (time : now < 2 ^ 64)
    (time' : later < 2 ^ 64) where
  module _ (host port : Bytes) (i : ℤ) (is_port : stoi port ≡ ok i) (reached : Bytes → ℕ → Bool)
      (is_reached : reached host (port_of i) ≡ true) where
    -- Two runs of the command line client, over connections that lose nothing and send responses
    -- of up to some number of bytes as they were, from 64 to the size of a record that the log
    -- reads, against a server that is reached and whose database serves, at times of 64 bits,
    -- where the port is a number, the value is not empty, and the key and the value fit a record
    -- of that many bytes: the run of `put` prints OK, the later run of `get` prints exactly the
    -- value, both exit with 0, and every other lookup in the database is as before.
    pub main-put_get :
        (key : Bytes) (b : ℕ) (bs : Bytes) {db : Database} {rs : List WalRecord}
        → FitsWithin limit key (b ∷ bs)
        → IsServing db rs
        → (db' db'' : Database) × IsRun sent now later n reached
            (host ∷ port ∷ text "put" ∷ key ∷ (b ∷ bs) ∷ [])
            db
            db'
            (text "OK" ∷ [], 0)
          × IsRun sent now later n reached
              (host ∷ port ∷ text "get" ∷ key ∷ [])
              db'
              db''
              ((b ∷ bs) ∷ [], 0)
          × (view db'' ≡ update key (some (b ∷ bs)) (view db))
    unfolding run_command str_eq report_flag report_get
    main-put_get key b bs {db} fits v =
        let (db₁, (rs₁, v₁), stored, seen) =
          put-serving sending room most now later n 0 time time' v key (b ∷ bs) fits in
        let there : view db₁ key ≡ some (b ∷ bs) =
          ap (λ s. s key) seen ∙ rw (str_eq_refl key) refl in
        let (db₂, (rs₂, v₂), got, same) =
          get-serving sending room most now later n 0 time time' v₁ key b bs fits there in
        (
          db₁,
          db₂,
          main-run_command (link_over sent (taking now later)) reached (at n header db [] []) host
                port is_port is_reached (text "put") (key ∷ (b ∷ bs) ∷ [])
              ∙ ap (λ q. ok (q.0.peer, report_flag (text "OK") q.1)) stored,
          main-run_command (link_over sent (taking now later)) reached (at n header db₁ [] []) host
                port is_port is_reached (text "get") (key ∷ [])
              ∙ ap (λ q. ok (q.0.peer, report_get q.1)) got,
          same ∙ seen,
        )
