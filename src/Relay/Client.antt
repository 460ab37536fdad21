-- ===== src/Relay/Client.antt =====
-- OLD/threaded_ether_relay.py: `ClientConnection.run`. What the network and the threads do in a
-- turn of the loop is given; the clock is left out, so a wait is the number of tenths of a second
-- it asks for; that the threads of a connection have exited is not noted in its fields.
pub mod Backoff
use public_trash.Base.{
  ℕ, zero, suc, ◌+◌, ◌-◌, ◌*◌, ◌^◌, min, Bool, true, false, ◌==◌, if◌then◌else◌, ltb, List, [], ◌∷◌,
  ◌++◌, Option, none, some, Exception, overflow_error, socket_error, Result, ok, raise,
}
use public_trash.Relay.Connection.{Connection, Stats, resets, update_stats, start_threads}

pub record ClientConnection : Type 0 where
  pub connection : Connection
  pub connection_attempts : ℕ

-- `min(1.0 * 2 ** (attempts - 1), 30.0)` in tenths of a second: from 2 ** 1024 on the product of a
-- float and an integer raises `OverflowError`.
unfoldable pub delay : ℕ → Result ℕ
delay attempts =
    if ltb 1023 (attempts - 1) then raise overflow_error else ok (min (10 * 2 ^ (attempts - 1)) 300)

-- What is given for one turn: whether a stop flag is set during the wait, the new socket, whether
-- it connects, and whether a stop flag is set when the turn is over.
pub record Turn : Type 0 where
  pub interrupted : Bool
  pub new_sock : ℕ
  pub connects : Bool
  pub stopped : Bool

-- What the program does, in order.
pub data Step : Type 0 where
  waits tries closes : ℕ → Step
  errs : Exception → Step

-- What a turn does, how it leaves the connection, and whether the loop goes on.
abbrev pub Turned : Type 0
Turned = List Step × ClientConnection × Bool

abbrev forget_sock : ClientConnection → ClientConnection
forget_sock c = record c { connection = record c.connection { sock = none } }

-- The socket is closed if there is one, and forgotten; `close` is caught if it fails.
abbrev close_sock : ClientConnection → List Step × ClientConnection
close_sock c = elim c.connection.sock [ none ↦ ([], c) | some s ↦ (closes s ∷ [], forget_sock c) ]

-- Both `except` branches.
unfoldable pub failed : Exception → List Step → ClientConnection → Bool → Turned
failed e steps c go_on = (steps ++ errs e ∷ (close_sock c).0, (close_sock c).1, go_on)

-- A connection is made and the threads run until they exit or a flag is set.
abbrev serve : ClientConnection → ℕ → ClientConnection
serve c s = record {
  connection =
      start_threads (record c.connection { stats = update_stats c.connection.stats resets 1 }) s;
  connection_attempts = 0;
}

abbrev count_attempt : ClientConnection → ℕ → ClientConnection
count_attempt c s = record {
  connection = record c.connection { sock = some s };
  connection_attempts = c.connection_attempts + 1;
}

-- The turn behind the wait.
unfoldable pub attempt : Turn → List Step → ClientConnection → Turned
unfolding failed start_threads
attempt t steps c =
    let go_on = if t.stopped then false else true in
    let tried = count_attempt c t.new_sock in
    if t.connects
    then (
      steps ++ tries t.new_sock ∷ (close_sock (serve tried t.new_sock)).0,
      (close_sock (serve tried t.new_sock)).1,
      go_on,
    )
    else failed socket_error (steps ++ tries t.new_sock ∷ []) tried go_on

-- The turn behind the computation of the delay.
unfoldable pub wait : Turn → Result ℕ → ClientConnection → Turned
unfolding failed attempt
wait t (raise e) c = failed e [] c (if t.stopped then false else true)
wait t (ok tenths) c =
    if t.interrupted then (waits tenths ∷ [], c, false) else attempt t (waits tenths ∷ []) c

unfoldable pub turn : Turn → ClientConnection → Turned
unfolding wait delay
turn t c =
    if c.connection_attempts == 0 then attempt t [] c else wait t (delay c.connection_attempts) c

-- `run`, for the turns that are given.
unfoldable pub run : List Turn → ClientConnection → List Step × ClientConnection
unfolding turn
run [] c = ([], c)
run (t ∷ ts) c =
    let rest = run ts (turn t c).1 in
    if (turn t c).2 then ((turn t c).0 ++ rest.0, rest.1) else ((turn t c).0, (turn t c).1)
