-- ===== src/Transport/Order.antt =====
-- The order of the messages of `src/server_session_manager/transport.py`.
use agentica_server.Base.{
  ◌≡◌, refl, sym, ap, ◌∙◌, Option, none, some, List, [], ◌∷◌, ◌++◌, append-nil, append_assoc,
}
use agentica_server.Transport.{
  Writer, getting, sending, over, WebSocketSender, Outcome, sent, cut_off, Event, enqueued, started,
  stopped, resumed, delivered, raised, enqueue, start, cancel_writer, stop, get_message, send_ends,
  happen, happen_all,
}

module _ {M : Type 0} where
  abbrev pub message_of : Outcome M → M
  message_of (sent m) = m
  message_of (cut_off m) = m

  abbrev pub messages_of : List (Outcome M) → List M
  messages_of [] = []
  messages_of (o ∷ os) = message_of o ∷ messages_of os

  abbrev pub put_in : List (Event M) → List M
  put_in [] = []
  put_in (enqueued m ∷ es) = m ∷ put_in es
  put_in (started ∷ es) = put_in es
  put_in (stopped ∷ es) = put_in es
  put_in (resumed ∷ es) = put_in es
  put_in (delivered ∷ es) = put_in es
  put_in (raised ∷ es) = put_in es

  abbrev in_flight : Option (Writer M) → List M
  in_flight (some (sending m)) = m ∷ []
  in_flight (some getting) = []
  in_flight (some over) = []
  in_flight none = []

  -- What is being sent, then what waits.
  abbrev pub unsent : WebSocketSender M → List M
  unsent s = in_flight s.writer_task ++ s.queue

  messages_of-append :
      (a b : List (Outcome M)) → messages_of (a ++ b) ≡ messages_of a ++ messages_of b
  messages_of-append [] b = refl
  messages_of-append (o ∷ a) b = ap (λ r. message_of o ∷ r) (messages_of-append a b)

  put_in-step : (e : Event M) (es : List (Event M)) → put_in (e ∷ es) ≡ put_in (e ∷ []) ++ put_in es
  put_in-step (enqueued m) es = refl
  put_in-step started es = refl
  put_in-step stopped es = refl
  put_in-step resumed es = refl
  put_in-step delivered es = refl
  put_in-step raised es = refl

  get_message_lem :
      (w : Option (Writer M)) (q : List M)
      → messages_of (get_message w q).0 ++ unsent (get_message w q).1 ≡ in_flight w ++ q
  unfolding get_message
  get_message_lem (some getting) (m ∷ q) = refl
  get_message_lem (some getting) [] = refl
  get_message_lem (some (sending m)) q = refl
  get_message_lem (some over) q = refl
  get_message_lem none q = refl

  start_lem :
      (w : Option (Writer M)) (q : List M)
      → unsent (start (record { queue = q; writer_task = w })) ≡ in_flight w ++ q
  unfolding start
  start_lem none q = refl
  start_lem (some w) q = refl

  stop_lem :
      (w : Option (Writer M)) (q : List M) → messages_of (cancel_writer w) ++ q ≡ in_flight w ++ q
  unfolding cancel_writer
  stop_lem (some getting) q = refl
  stop_lem (some (sending m)) q = refl
  stop_lem (some over) q = refl
  stop_lem none q = refl

  sent_lem :
      (w : Option (Writer M)) (q : List M)
      → messages_of (send_ends sent getting w).0 ++ (in_flight (send_ends sent getting w).1 ++ q)
        ≡ in_flight w ++ q
  unfolding send_ends
  sent_lem (some getting) q = refl
  sent_lem (some (sending m)) q = refl
  sent_lem (some over) q = refl
  sent_lem none q = refl

  raised_lem :
      (w : Option (Writer M)) (q : List M)
      → messages_of (send_ends cut_off over w).0 ++ (in_flight (send_ends cut_off over w).1 ++ q)
        ≡ in_flight w ++ q
  unfolding send_ends
  raised_lem (some getting) q = refl
  raised_lem (some (sending m)) q = refl
  raised_lem (some over) q = refl
  raised_lem none q = refl

  happen_lem :
      (e : Event M) (s : WebSocketSender M)
      → messages_of (happen e s).0 ++ unsent (happen e s).1 ≡ unsent s ++ put_in (e ∷ [])
  unfolding happen enqueue stop
  happen_lem (enqueued m) s = sym (append_assoc (in_flight s.writer_task) s.queue (m ∷ []))
  happen_lem started s = start_lem s.writer_task s.queue ∙ sym (append-nil (unsent s))
  happen_lem stopped s = stop_lem s.writer_task s.queue ∙ sym (append-nil (unsent s))
  happen_lem resumed s = get_message_lem s.writer_task s.queue ∙ sym (append-nil (unsent s))
  happen_lem delivered s = sent_lem s.writer_task s.queue ∙ sym (append-nil (unsent s))
  happen_lem raised s = raised_lem s.writer_task s.queue ∙ sym (append-nil (unsent s))

  -- However calls, turns of the writer and failures follow one another, the messages that were sent
  -- or cut off, then the one being sent, then those that wait, are all that were unsent before and
  -- then all that were enqueued, each once and in order.
  pub unsent-happen_all :
      (es : List (Event M)) (s : WebSocketSender M)
      → messages_of (happen_all es s).0 ++ unsent (happen_all es s).1 ≡ unsent s ++ put_in es
  unfolding happen_all
  unsent-happen_all [] s = sym (append-nil (unsent s))
  unsent-happen_all (e ∷ es) s =
      let t = (happen e s).1 in
      ap (λ r. r ++ unsent (happen_all es t).1)
        (messages_of-append (happen e s).0 (happen_all es t).0)
      ∙ append_assoc (messages_of (happen e s).0) (messages_of (happen_all es t).0)
          (unsent (happen_all es t).1)
      ∙ ap (λ r. messages_of (happen e s).0 ++ r) (unsent-happen_all es t)
      ∙ sym (append_assoc (messages_of (happen e s).0) (unsent t) (put_in es))
      ∙ ap (λ r. r ++ put_in es) (happen_lem e s)
      ∙ append_assoc (unsent s) (put_in (e ∷ [])) (put_in es)
      ∙ ap (λ r. unsent s ++ r) (sym (put_in-step e es))
