-- ===== src/Server/Cleanup.antt =====
-- rtmp_server_integration.c: rtmp_server_cleanup_connection.
use rtmpcamera.Prelude.{
  ℕ, Bool, true, false, not, Option, none, some, List, [], ◌∷◌, ◌++◌, if◌then◌else◌, ◌==◌, sub32,
}
use rtmpcamera.Server.{Connection, Server, Event, connection_called}

-- `blocked`: the thread waits for the mutex for ever. `used_after_free`: it read a connection that
-- is no longer allocated.
pub data Outcome : Type 0 where
  done blocked : Server → Outcome
  used_after_free : Outcome

-- The list without its first connection of this address.
abbrev pub unlink : (id : ℕ) → List Connection → Option (List Connection)
unlink id [] = none
unlink id (c ∷ cs) =
    let rest = unlink id cs in
    if c.id == id then some cs else elim rest [ none ↦ none | some ds ↦ some (c ∷ ds) ]

abbrev pub has : (id : ℕ) → List ℕ → Bool
has id [] = false
has id (n ∷ ns) = if n == id then true else has id ns

abbrev pub release : (id : ℕ) → List ℕ → List ℕ
release id [] = []
release id (n ∷ ns) = if n == id then ns else n ∷ release id ns

abbrev pub notify : (id : ℕ) → Server → List Event
notify id s = if s.has_connection_callback then s.events ++ connection_called id ∷ [] else s.events

-- The search of rtmp_server_cleanup_connection, under the mutex.
unfoldable pub unlinked : (id : ℕ) → Server → Server
unlinked id s = elim (unlink id s.connections) [
  | none ↦ s
  | some rest ↦ record s { connections = rest; num_connections = sub32 s.num_connections 1 }
]

-- rtmp_server_cleanup_connection
unfoldable pub cleanup_connection : (id : ℕ) → Server → Outcome
unfolding unlinked
cleanup_connection id s =
    if not (has id s.live)
    then used_after_free
    else if s.held
    then blocked s
    else done (record (unlinked id s) { events = notify id s; live = release id s.live })
