-- ===== src/Transport.antt =====
-- `WebSocketSender` of `src/server_session_manager/transport.py`. A writer task that is cancelled
-- ends where it is suspended, so that only the current one is kept.
pub mod Order
pub mod Failures
mod Tests
use agentica_server.Base.{Option, none, some, List, [], ◌∷◌, ◌++◌}

-- Where the writer task is suspended: at the queue, or while it sends; or it is over.
pub data Writer (M : Type 0) : Type 0 where
  getting : Writer M
  sending : M → Writer M
  over : Writer M

pub record WebSocketSender (M : Type 0) : Type 0 where
  pub queue : List M
  pub writer_task : Option (Writer M)

-- What comes of a message: its bytes are sent, or the sending is cut off by an exception.
pub data Outcome (M : Type 0) : Type 0 where
  sent cut_off : M → Outcome M

-- `resumed` lets the writer go on at the queue, `delivered` and `raised` after its sending.
pub data Event (M : Type 0) : Type 0 where
  enqueued : M → Event M
  started stopped resumed delivered raised : Event M

module _ {M : Type 0} where
  unfoldable pub init : WebSocketSender M
  init = record { queue = []; writer_task = none }

  unfoldable pub enqueue : M → WebSocketSender M → WebSocketSender M
  enqueue msg s = record s { queue = s.queue ++ msg ∷ [] }

  unfoldable pub start : WebSocketSender M → WebSocketSender M
  start s = elim s.writer_task [ some task ↦ s | none ↦ record s { writer_task = some getting } ]

  unfoldable pub cancel_writer : Option (Writer M) → List (Outcome M)
  cancel_writer none = []
  cancel_writer (some getting) = []
  cancel_writer (some (sending msg)) = cut_off msg ∷ []
  cancel_writer (some over) = []

  unfoldable pub stop : WebSocketSender M → List (Outcome M) × WebSocketSender M
  unfolding cancel_writer
  stop s = (cancel_writer s.writer_task, record s { writer_task = none })

  -- msg = await self._queue.get()
  unfoldable pub get_message : Option (Writer M) → List M → List (Outcome M) × WebSocketSender M
  get_message (some getting) (msg ∷ msgs) =
      ([], record { queue = msgs; writer_task = some (sending msg) })
  get_message (some getting) [] = ([], record { queue = []; writer_task = some getting })
  get_message (some (sending msg)) msgs =
      ([], record { queue = msgs; writer_task = some (sending msg) })
  get_message (some over) msgs = ([], record { queue = msgs; writer_task = some over })
  get_message none msgs = ([], record { queue = msgs; writer_task = none })

  -- await self._send_bytes(...), which returns or raises; only a cancellation is caught.
  unfoldable pub send_ends :
      (M → Outcome M) → Writer M → Option (Writer M) → List (Outcome M) × Option (Writer M)
  send_ends outcome next (some (sending msg)) = (outcome msg ∷ [], some next)
  send_ends outcome next (some getting) = ([], some getting)
  send_ends outcome next (some over) = ([], some over)
  send_ends outcome next none = ([], none)

  unfoldable pub happen : Event M → WebSocketSender M → List (Outcome M) × WebSocketSender M
  unfolding enqueue start stop get_message send_ends
  happen (enqueued msg) s = ([], enqueue msg s)
  happen started s = ([], start s)
  happen stopped s = stop s
  happen resumed s = get_message s.writer_task s.queue
  happen delivered s =
      let (out, task) = send_ends sent getting s.writer_task in
      (out, record s { writer_task = task })
  happen raised s =
      let (out, task) = send_ends cut_off over s.writer_task in
      (out, record s { writer_task = task })

  unfoldable pub happen_all :
      List (Event M) → WebSocketSender M → List (Outcome M) × WebSocketSender M
  unfolding happen
  happen_all [] s = ([], s)
  happen_all (e ∷ es) s =
      let (out, t) = happen e s in let (outs, u) = happen_all es t in (out ++ outs, u)
