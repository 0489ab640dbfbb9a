-- ===== src/Connector/Tests.antt =====
-- A connector with a handler that has one text to send, and the theorems about connectors at its states.
use doormat.Base.{
  ℕ, ◌≡◌, refl, Bool, true, false, Option, none, some, List, [], ◌∷◌, ◌++◌, Bytes, codes,
  append-nil,
}
use doormat.Buffer.{reserve, avail_mem}
use doormat.Connector.{
  Connector, HttpHandler, Failure, none_of_it, asked_write, Reach, here, next, acted, make, start,
  do_read, do_write, write_succeeded, write_failed, read_succeeded, after_read, maxinbytesperloop,
}
use doormat.Connector.Writing.{IsWriter, stream, feedbacks, do_write-stream, written_by}
use doormat.Connector.Idle.{IsReader, feedbacks_kept}
use doormat.Connector.Reading.{read_delivers}
use native.Mathlib.Omega.{arith}

-- What is to be sent, and the feedbacks for it.
abbrev Handler : Type 0
Handler = Bytes × List ℕ

abbrev take_text : Bytes → List ℕ → Handler × Option Bytes
take_text [] l = (([], l), none)
take_text (x ∷ xs) l = (([], l), some (x ∷ xs))

abbrev handler : HttpHandler Handler ℕ
handler = record {
  start_handler = λ h. (h, true);
  on_write = λ h. take_text h.0 h.1;
  should_stop = λ h. false;
  write_feedbacks = λ h. ((h.0, []), h.1);
  trigger_timeout_event = λ h. h;
}

take_text-unsent :
    (b : Bytes) (l : List ℕ) → written_by (take_text b l).1 ++ (take_text b l).0.0 ≡ b
take_text-unsent [] l = refl
take_text-unsent (x ∷ xs) l = append-nil (x ∷ xs)

take_text-pending : (b : Bytes) (l : List ℕ) → (take_text b l).0.1 ≡ l
take_text-pending [] l = refl
take_text-pending (x ∷ xs) l = refl

abbrev handler-IsWriter : IsWriter handler
handler-IsWriter = record {
  unsent = λ h. h.0;
  pending = λ h. h.1;
  feedbacks_taken = λ h. refl;
  none_pending = λ h. refl;
  feedbacks_unsent = λ h. refl;
  write_unsent = λ h. take_text-unsent h.0 h.1;
  write_pending = λ h. take_text-pending h.0 h.1;
}

-- Whatever comes, the handler asks for a write.
abbrev on_read : Connector Handler ℕ → Bytes → Connector Handler ℕ × Bool
on_read s bytes = (do_write handler s, true)

on_read-IsReader : IsReader handler on_read
on_read-IsReader = record { uses = λ s bytes. asked_write none_of_it }

abbrev greeting : Handler
greeting = (codes "hello", 1 ∷ 2 ∷ [])

abbrev fresh : Connector Handler ℕ
fresh = start handler (make handler greeting)

abbrev writing : Connector Handler ℕ
writing = do_write handler fresh

writing-Reach : Reach handler on_read fresh writing
writing-Reach = next here (acted (asked_write none_of_it))

sent : writing.written ≡ codes "hello" ∷ []
unfolding do_write start do_read
sent = refl

do_write-stream_example :
    stream handler handler-IsWriter (do_write handler fresh) ≡ stream handler handler-IsWriter fresh
do_write-stream_example = do_write-stream handler handler-IsWriter fresh

feedbacks_kept_example :
    (feedbacks handler handler-IsWriter (do_write handler writing)
      ≡ feedbacks handler handler-IsWriter writing)
    × (feedbacks handler handler-IsWriter (write_succeeded handler writing)
        ≡ feedbacks handler handler-IsWriter writing)
    × ((f : Failure)
        → feedbacks handler handler-IsWriter (write_failed handler f writing)
          ≡ feedbacks handler handler-IsWriter writing)
feedbacks_kept_example =
    feedbacks_kept handler on_read handler-IsWriter on_read-IsReader greeting writing writing-Reach

read_delivers_example :
    (8192 ≡ maxinbytesperloop)
    × ((c : Connector Handler ℕ) × (c.handler ≡ writing.handler)
        × (c.reading ≡ none)
        × (read_succeeded handler on_read 0 (codes "GET") writing
            ≡ some (after_read handler 3 (on_read c (codes "GET")))))
unfolding do_write start do_read reserve avail_mem
read_delivers_example =
    read_delivers handler on_read on_read-IsReader greeting writing writing-Reach 0 8192 71
      (codes "ET") refl (omega arith)
